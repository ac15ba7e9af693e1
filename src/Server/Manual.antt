-- ===== src/Server/Manual.antt =====
-- src/server.rs, `manual_evaluate`: an evaluation that an operator triggers.
use oracle_qa.Prelude.{
  ℕ, Bool, false, String, Bytes, List, [], Option, none, some, Result, ok, err, if◌then◌else◌,
  wrapping_add,
}
use oracle_qa.Prelude.Text.{◌⊹◌, show}
use oracle_qa.Error.{OracleError, error_text}
use oracle_qa.Types.{EvaluationJob, CheckResult}
use oracle_qa.State.{OracleConfig, OracleStats}
use oracle_qa.External.{Deps}
use oracle_qa.Settler.Chain.{AccountReply, read_payment}
use oracle_qa.Pipeline.Exec.{Shared}
use oracle_qa.Pipeline.Run.{Surroundings, PipelineOutcome, run_pipeline}
use oracle_qa.Ledger.Calls.{Db, Call, Fate, record_queued, record_settled, record_failed}
use oracle_qa.Server.Access.{Headers, Refusal, authorize_manual_evaluate}

-- A request, with its time; what the chain and the registries answer to it; and, for a run that the
-- timeout cuts off, what it had shared by then.
pub record Request : Type 0 where
  pub headers : Headers
  pub payment_pubkey : String
  pub arrival : ℕ

pub record Situation : Type 0 where
  pub pubkey_error : String
  pub account : Bytes → AccountReply
  pub env : Surroundings
  pub now : String
  pub cut : Option Shared

-- The part of `AppState` that the handler reads and writes.
pub record AppState : Type 0 where
  pub db : Option Db
  pub shared : Shared
  pub requests : List ℕ

pub record ManualEvaluateResponse : Type 0 where
  pub status : ℕ
  pub approved : Bool
  pub signature : Option String
  pub checks : List CheckResult
  pub error : Option String

abbrev pub refuse : ℕ → String → ManualEvaluateResponse
refuse code text = record {
  status = code;
  approved = false;
  signature = none;
  checks = [];
  error = some text;
}

abbrev pub answer : PipelineOutcome → ManualEvaluateResponse
answer outcome = record {
  status = 200;
  approved = outcome.result.approved;
  signature = outcome.signature;
  checks = outcome.result.checks;
  error = none;
}

module _ (x : Deps) (config : OracleConfig) (fates : ℕ → Fate) where
  abbrev pub note_ledger : {A : Type 0} → Call A → AppState → AppState
  note_ledger call s = record s { db = elim s.db [ none ↦ none | some db ↦ some (call db).1 ] }

  abbrev pub count : (OracleStats → OracleStats) → AppState → AppState
  count f s = record s { shared = record s.shared { stats = f s.shared.stats } }

  abbrev pub count_answer : Bool → String → OracleStats → OracleStats
  count_answer approved now t = record t {
    total_evaluated = wrapping_add t.total_evaluated 1;
    total_approved = if approved then wrapping_add t.total_approved 1 else t.total_approved;
    total_rejected = if approved then t.total_rejected else wrapping_add t.total_rejected 1;
    last_evaluation_at = some now;
  }

  abbrev pub add_error : OracleStats → OracleStats
  add_error t = record t { total_errors = wrapping_add t.total_errors 1 }

  -- The arms of the `match` on the run under its timeout.
  unfoldable pub conclude :
      Situation
      → EvaluationJob
      → Result OracleError PipelineOutcome
      → AppState
      → ManualEvaluateResponse × AppState
  conclude sit job (ok outcome) s = (
    answer outcome,
    count (count_answer outcome.result.approved sit.now) (
        note_ledger
          (record_settled x fates job outcome.result outcome.signature outcome.resolution_hash) s),
  )
  conclude sit job (err e) s = (
    refuse 500 (error_text e),
    count add_error (note_ledger (record_failed x fates job (error_text e)) s),
  )

  abbrev pub timed_out : EvaluationJob → AppState → ManualEvaluateResponse × AppState
  timed_out job s = (
    refuse 500 ("Pipeline timed out after " ⊹ show config.evaluation_timeout_ms ⊹ "ms"),
    count add_error (note_ledger (record_failed x fates job "manual pipeline timeout") s),
  )

  unfoldable pub evaluate_job :
      Situation → EvaluationJob → AppState → ManualEvaluateResponse × AppState
  evaluate_job sit job s =
      let queued = note_ledger (record_queued x fates job) s in
      elim sit.cut [
        | some left ↦ timed_out job (record queued { shared = left })
        | none ↦
            (let (result, shared) = run_pipeline x config sit.env job queued.shared in
              conclude sit job result (record queued { shared = shared }))
      ]

  abbrev pub on_payment :
      Situation
      → Result OracleError (Option EvaluationJob)
      → AppState
      → ManualEvaluateResponse × AppState
  on_payment sit (ok (some job)) s = evaluate_job sit job s
  on_payment sit (ok none) s = (refuse 404 "Payment not found or not assigned to this oracle", s)
  on_payment sit (err e) s = (refuse 500 ("Chain read error: " ⊹ error_text e), s)

  abbrev pub on_pubkey : Situation → Option Bytes → AppState → ManualEvaluateResponse × AppState
  on_pubkey sit none s = (refuse 400 ("Invalid pubkey: " ⊹ sit.pubkey_error), s)
  on_pubkey sit (some pk) s =
      on_payment sit (read_payment x (sit.account pk) pk config.oracle_pubkey) s

  abbrev pub on_access :
      Request → Situation → Result Refusal (Unit {0}) → AppState → ManualEvaluateResponse × AppState
  on_access req sit (err (code, text)) s = (refuse code text, s)
  on_access req sit (ok u) s = on_pubkey sit (x.parse_pubkey req.payment_pubkey) s

  unfoldable pub manual_evaluate :
      Request → Situation → AppState → ManualEvaluateResponse × AppState
  manual_evaluate req sit s =
      let (access, requests) =
        authorize_manual_evaluate x config req.headers req.arrival s.requests in
      on_access req sit access (record s { requests = requests })
