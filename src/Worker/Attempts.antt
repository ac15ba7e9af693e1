-- ===== src/Worker/Attempts.antt =====
-- src/main.rs, the worker with a ledger whose calls work: the row that a turn leaves for its job.
use oracle_qa.Prelude.{
  ℕ, ◌+◌, ◌≡◌, inl, inr, refl, ap, ◌∙◌, Bool, true, false, String, Option, none, some, ok, err,
  arith, leb, if◌then◌else◌, Bool-cases, Option-cases,
}
use oracle_qa.Types.{EvaluationJob}
use oracle_qa.State.{OracleConfig}
use oracle_qa.External.{Deps}
use oracle_qa.Pipeline.Exec.{Shared}
use oracle_qa.Pipeline.Run.{PipelineOutcome, run_pipeline}
use oracle_qa.Ledger.Tables.{
  Status, failed, dead_letter, settled, JobRow, is_running, one_if, fresh_row, merge_row,
}
use oracle_qa.Monitor.Backfill.{persist_slot_watermark}
use oracle_qa.Ledger.Rows.{merged}
use oracle_qa.Ledger.Calls.{
  Db, DbError, Fate, works, row_attempts, record_detected, record_queued, record_started,
}
use oracle_qa.Ledger.Working.{
  attempt_count_works, set_parameter_works, row_in, record_detected_works, record_queued_works,
  record_started_works, record_failed_works, record_dead_letter_works, record_settled_works,
}
use oracle_qa.Worker.Process.{
  Worker, Round, count_or_one, started_count, succeed, give_up, store_watermark,
}

merged_attempts :
    (now : ℕ) (row : JobRow) (old : Option JobRow)
    → row.attempts ≡ 0
    → (merged now row old).attempts ≡ row_attempts old + one_if (is_running row.status)
unfolding fresh_row merge_row
merged_attempts now row none e = omega arith
merged_attempts now row (some old) e = refl

merged_status :
    (now : ℕ) (row : JobRow) (old : Option JobRow) → (merged now row old).status ≡ row.status
unfolding fresh_row merge_row
merged_status now row none = refl
merged_status now row (some old) = refl

module _ (x : Deps) (config : OracleConfig) (fates : ℕ → Fate) (working : (n : ℕ) → fates n ≡ works)
    (job : EvaluationJob) where
  abbrev pub tried : Db → ℕ
  tried s = row_attempts (row_in x fates working job s)

  pub start_works :
      (s : Db)
      → (u : Db) × (started_count x config fates job s ≡ (tried s + 1, u)) × (tried u ≡ tried s + 1)
  start_works s =
      let (began, row) = record_started_works x fates working job s in
      let u = (record_started x fates job s).1 in
      let count : tried u ≡ tried s + 1 =
        ap row_attempts row ∙ merged_attempts s.calls _ (row_in x fates working job s) refl in
      let told : count_or_one x config fates {E = DbError} (ok (tried u)) ≡ tried s + 1 =
        rw count (ground arith) in
      (
        record u { calls = u.calls + 1 },
        rw (began, started_count)
            (rw (attempt_count_works x fates working job u)
              (ap (λ n. (n, record u { calls = u.calls + 1 })) told)),
        count,
      )

  pub detected_tried : (s : Db) → tried (record_detected x fates job s).1 ≡ tried s
  detected_tried s =
      let (k, row) = record_detected_works x fates working job s in
      omega
        (arith, ap row_attempts row ∙ merged_attempts s.calls _ (row_in x fates working job s) refl)

  pub queued_tried : (s : Db) → tried (record_queued x fates job s).1 ≡ tried s
  queued_tried s =
      let (k, row) = record_queued_works x fates working job s in
      omega
        (arith, ap row_attempts row ∙ merged_attempts s.calls _ (row_in x fates working job s) refl)

  -- A worker with the ledger `s`, and the row of the job in a worker's ledger.
  abbrev pub ledger_of : Worker → Db → Worker
  ledger_of w s = record w { db = some s }

  abbrev pub row_now : Worker → Option JobRow
  row_now w = elim w.db [ none ↦ none | some s ↦ row_in x fates working job s ]

  -- How a run ends, and the status that the job's row then has.
  abbrev pub failing : Round → Shared → Bool
  failing round shared = elim round.cut [
    | some left ↦ true
    | none ↦ elim (run_pipeline x config round.env job shared).0 [
      | ok outcome ↦ false
      | err e ↦ true
    ]
  ]

  abbrev pub status_after : ℕ → Bool → Status
  status_after n false = settled
  status_after n true = if leb config.dead_letter_max_attempts n then dead_letter else failed

  -- The row of the job: its number of attempts, and its status.
  abbrev pub HasRow : Option JobRow → ℕ → Status → Type 0
  HasRow row n status = (r : JobRow) × (row ≡ some r) × (r.attempts ≡ n) × (r.status ≡ status)

  left_row :
      (now : ℕ) (row : JobRow) (s : Db) (found : Option JobRow) (n : ℕ)
      → found ≡ some (merged now row (row_in x fates working job s))
      → row.attempts ≡ 0
      → tried s + one_if (is_running row.status) ≡ n
      → HasRow found n row.status
  left_row now row s found n e zeroed count = (
    merged now row (row_in x fates working job s),
    e,
    merged_attempts now row (row_in x fates working job s) zeroed ∙ count,
    merged_status now row (row_in x fates working job s),
  )

  pub give_up-HasRow :
      (n : ℕ) (text : String) (w : Worker) (s : Db)
      → tried s ≡ n
      → HasRow (row_now (give_up x config fates job n text (ledger_of w s))) n (status_after n true)
  unfolding give_up
  give_up-HasRow n text w s count =
      let (k, dead) = record_dead_letter_works x fates working job text s in
      let (j, bad) = record_failed_works x fates working job text s in
      elim (Bool-cases (leb config.dead_letter_max_attempts n)) [
        | inl e ↦ rw e (left_row s.calls _ s _ n dead refl (omega (arith, count)))
        | inr e ↦ rw e (left_row s.calls _ s _ n bad refl (omega (arith, count)))
      ]

  store_watermark_row :
      (w : Worker) (s : Db)
      → row_now (store_watermark x config fates (ledger_of w s)) ≡ row_in x fates working job s
  store_watermark_row w s = elim (Option-cases (persist_slot_watermark w.health)) [
    | inl e ↦ rw (e, row_now) refl
    | inr (slot, e) ↦ rw (e, row_now) (set_parameter_works x fates working _ slot job s)
  ]

  pub succeed-HasRow :
      (n : ℕ) (now : String) (outcome : PipelineOutcome) (w : Worker) (s : Db)
      → tried s ≡ n
      → HasRow (row_now (succeed x config fates job now outcome (ledger_of w s))) n settled
  unfolding succeed
  succeed-HasRow n now outcome w s count =
      let (k, paid) =
        record_settled_works x fates working job outcome.result outcome.signature
          outcome.resolution_hash s in
      left_row s.calls _ s _ n (store_watermark_row w _ ∙ paid) refl (omega (arith, count))
