-- ===== src/Worker/Process.antt =====
-- src/main.rs, the body of the worker's loop: one job taken from the channel.
use oracle_qa.Prelude.{
  ℕ, zero, suc, ◌+◌, ◌%◌, Bool, true, false, String, Bytes, List, [], ◌∷◌, Option, none, some,
  Result, ok, err, leb, if◌then◌else◌, any, bytes_eq, wrapping_add,
}
use oracle_qa.Error.{OracleError, error_text}
use oracle_qa.Types.{EvaluationJob, RuntimeHealth, param_last_seen_slot}
use oracle_qa.State.{OracleConfig, OracleStats}
use oracle_qa.External.{Deps}
use oracle_qa.Pipeline.Exec.{Shared}
use oracle_qa.Pipeline.Run.{Surroundings, PipelineOutcome, run_pipeline}
use oracle_qa.Monitor.Backfill.{persist_slot_watermark}
use oracle_qa.Ledger.Calls.{
  Db, Call, Fate, is_terminal, attempt_count, record_detected, record_queued, record_started,
  record_settled, record_failed, record_dead_letter, set_parameter,
}

-- What the worker keeps and shares; `db` is `None` where the ledger is disabled. The keys of
-- `processed` and `attempts` are payment uids.
pub record Worker : Type 0 where
  pub db : Option Db
  pub processed : List Bytes
  pub attempts : List (Bytes × ℕ)
  pub shared : Shared
  pub health : RuntimeHealth

-- What one turn of the loop meets: the jobs left in the channel, the replies to the run, the time, and
-- what a run that is cut off by the timeout had shared by then, `none` for a run in time.
pub record Round : Type 0 where
  pub waiting : ℕ
  pub env : Surroundings
  pub now : String
  pub cut : Option Shared

abbrev pub seen : Bytes → List Bytes → Bool
seen uid = any (λ u. bytes_eq u uid)

-- `HashSet::remove` and `HashMap::remove`.
unfoldable pub remove_uid : Bytes → List Bytes → List Bytes
remove_uid uid [] = []
remove_uid uid (u ∷ us) = let rest = remove_uid uid us in if bytes_eq u uid then rest else u ∷ rest

unfoldable pub remove_count : Bytes → List (Bytes × ℕ) → List (Bytes × ℕ)
remove_count uid [] = []
remove_count uid (c ∷ cs) =
    let rest = remove_count uid cs in if bytes_eq c.0 uid then rest else c ∷ rest

unfoldable pub count_of : Bytes → List (Bytes × ℕ) → ℕ
count_of uid [] = 0
count_of uid (c ∷ cs) = let rest = count_of uid cs in if bytes_eq c.0 uid then c.1 else rest

module _ (x : Deps) (config : OracleConfig) (fates : ℕ → Fate) where
  -- A ledger call whose error is only logged; nothing without a ledger.
  abbrev pub with_ledger : {A : Type 0} → Call A → Worker → Worker
  with_ledger call w = record w { db = elim w.db [ none ↦ none | some db ↦ some (call db).1 ] }

  abbrev pub not_terminal : {E : Type 0} → Result E Bool → Bool
  not_terminal (ok true) = false
  not_terminal (ok false) = true
  not_terminal (err e) = true

  -- Whether the job goes on: the ledger's answer, or the in-memory set without a ledger.
  unfoldable pub admit : EvaluationJob → Worker → Bool × Worker
  admit job w = elim w.db [
    | some db ↦
        (let (answer, db2) = is_terminal x fates job.payment_uid db in
          (not_terminal answer, record w { db = some db2 }))
    | none ↦
        if seen job.payment_uid w.processed
        then (false, w)
        else (true, record w { processed = job.payment_uid ∷ w.processed })
  ]

  abbrev pub count_or_one : {E : Type 0} → Result E ℕ → ℕ
  count_or_one (ok zero) = 1
  count_or_one (ok (suc n)) = suc n
  count_or_one (err e) = 1

  abbrev pub started_count : EvaluationJob → Db → ℕ × Db
  started_count job db =
      let (started, db2) = record_started x fates job db in
      elim started [
        | err e ↦ (1, db2)
        | ok u ↦ (let (n, db3) = attempt_count x fates job.payment_uid db2 in (count_or_one n, db3))
      ]

  -- The number of this attempt: the ledger's, or the in-memory one (a `u32`) without a ledger.
  unfoldable pub start : EvaluationJob → Worker → ℕ × Worker
  start job w = elim w.db [
    | some db ↦ (let (n, db2) = started_count job db in (n, record w { db = some db2 }))
    | none ↦
        (let n = (count_of job.payment_uid w.attempts + 1) % 4294967296 in
          (
            n,
            record w { attempts = (job.payment_uid, n) ∷ remove_count job.payment_uid w.attempts },
          ))
  ]

  abbrev pub with_stats : (OracleStats → OracleStats) → Worker → Worker
  with_stats f w = record w { shared = record w.shared { stats = f w.shared.stats } }

  abbrev pub count_verdict : Bool → String → OracleStats → OracleStats
  count_verdict true now s = record s {
    total_evaluated = wrapping_add s.total_evaluated 1;
    total_approved = wrapping_add s.total_approved 1;
    last_evaluation_at = some now;
  }
  count_verdict false now s = record s {
    total_evaluated = wrapping_add s.total_evaluated 1;
    total_rejected = wrapping_add s.total_rejected 1;
    last_evaluation_at = some now;
  }

  abbrev pub store_watermark : Worker → Worker
  store_watermark w = elim (persist_slot_watermark w.health) [
    | none ↦ w
    | some slot ↦ with_ledger (set_parameter x fates param_last_seen_slot slot) w
  ]

  -- The arm `Ok(Ok(outcome))`.
  unfoldable pub succeed : EvaluationJob → String → PipelineOutcome → Worker → Worker
  succeed job now outcome w =
      let logged = store_watermark (
        with_ledger
          (record_settled x fates job outcome.result outcome.signature outcome.resolution_hash)
          w) in
      let counted = with_stats (count_verdict outcome.result.approved now) logged in
      record counted { attempts = remove_count job.payment_uid counted.attempts }

  abbrev pub count_error : OracleStats → OracleStats
  count_error s = record s { total_errors = wrapping_add s.total_errors 1 }

  abbrev pub count_dead_letter : OracleStats → OracleStats
  count_dead_letter s = record s { total_dead_letter = wrapping_add s.total_dead_letter 1 }

  -- The arms `Ok(Err(e))` and `Err(_)`, which differ in the text only.
  unfoldable pub give_up : EvaluationJob → ℕ → String → Worker → Worker
  give_up job attempt_count text w =
      if leb config.dead_letter_max_attempts attempt_count
      then (let logged = with_ledger (record_dead_letter x fates job text) w in
          let counted = with_stats (λ s. count_dead_letter (count_error s)) logged in
          record counted { attempts = remove_count job.payment_uid counted.attempts })
      else (let logged = with_ledger (record_failed x fates job text) w in
          with_stats count_error
            (record logged { processed = remove_uid job.payment_uid logged.processed }))

  abbrev pub on_result :
      EvaluationJob → ℕ → String → Result OracleError PipelineOutcome → Worker → Worker
  on_result job n now (ok outcome) w = succeed job now outcome w
  on_result job n now (err e) w = give_up job n (error_text e) w

  -- The run under its timeout, and what follows.
  unfoldable pub run_job : Round → EvaluationJob → ℕ → Worker → Worker
  run_job round job n w = elim round.cut [
    | some left ↦ give_up job n "pipeline timeout" (record w { shared = left })
    | none ↦
        (let (result, shared) = run_pipeline x config round.env job w.shared in
          on_result job n round.now result (record w { shared = shared }))
  ]

  abbrev pub work : Round → EvaluationJob → Worker → Worker
  work round job w =
      let queued =
        with_ledger (record_queued x fates job) (with_ledger (record_detected x fates job) w) in
      let (n, started) = start job queued in run_job round job n started

  unfoldable pub process : Round → EvaluationJob → Worker → Worker
  process round job w =
      let (go, admitted) =
        admit job (record w { health = record w.health { queue_depth = round.waiting } }) in
      if go then work round job admitted else admitted
