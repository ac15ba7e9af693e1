-- ===== src/Worker/Memory.antt =====
-- src/main.rs, the worker without a ledger: the in-memory set of jobs.
use oracle_qa.Prelude.{
  ℕ, ◌+◌, ◌%◌, ◌≡◌, inl, inr, refl, ◌∙◌, subst, sym, Bool, true, false, String, Bytes, List, [],
  ◌∷◌, none, some, ok, err, arith, leb, Bool-cases, Result-cases, Option-cases, bytes_eq_refl,
}
use oracle_qa.Error.{error_text}
use oracle_qa.Types.{EvaluationJob}
use oracle_qa.State.{OracleConfig}
use oracle_qa.External.{Deps}
use oracle_qa.Pipeline.Exec.{Shared}
use oracle_qa.Pipeline.Run.{PipelineOutcome, run_pipeline}
use oracle_qa.Monitor.Backfill.{persist_slot_watermark}
use oracle_qa.Ledger.Calls.{Fate}
use oracle_qa.Worker.Process.{
  Worker, Round, seen, remove_uid, remove_count, count_of, admit, start, succeed, give_up, run_job,
  process, store_watermark,
}

seen-remove_uid : (uid : Bytes) (uids : List Bytes) → seen uid (remove_uid uid uids) ≡ false
unfolding remove_uid
seen-remove_uid uid [] = refl
seen-remove_uid uid (u ∷ us) = ground (arith, seen-remove_uid uid us)

module _ (x : Deps) (config : OracleConfig) (fates : ℕ → Fate) (job : EvaluationJob) where
  abbrev pub without_ledger : Worker → Worker
  without_ledger w = record w { db = none }

  -- The number of the attempt, a `u32`, and whether a run fails.
  abbrev pub attempt_number : Worker → ℕ
  attempt_number w = (count_of job.payment_uid w.attempts + 1) % 4294967296

  abbrev pub run_fails : Round → Shared → Bool
  run_fails round shared = elim round.cut [
    | some left ↦ true
    | none ↦ elim (run_pipeline x config round.env job shared).0 [
      | ok outcome ↦ false
      | err e ↦ true
    ]
  ]

  abbrev pub kept : ℕ → Bool → Bool
  kept n false = true
  kept n true = leb config.dead_letter_max_attempts n

  abbrev pub holds : Worker → Bool
  holds w = seen job.payment_uid w.processed

  -- There is still no ledger, and the set holds the job or not.
  abbrev Leaves : Worker → Bool → Type 0
  Leaves w b = (w.db ≡ none) × (holds w ≡ b)

  give_up-Leaves :
      (n : ℕ) (text : String) (w : Worker)
      → holds w ≡ true
      → Leaves (give_up x config fates job n text (without_ledger w)) (kept n true)
  unfolding give_up
  give_up-Leaves n text w h = elim (Bool-cases (leb config.dead_letter_max_attempts n)) [
    | inl e ↦ rw e (refl, h)
    | inr e ↦ rw e (refl, seen-remove_uid job.payment_uid w.processed)
  ]

  store_watermark-Leaves :
      (w : Worker) → Leaves (store_watermark x config fates (without_ledger w)) (holds w)
  store_watermark-Leaves w = elim (Option-cases (persist_slot_watermark w.health)) [
    | inl e ↦ rw (e, store_watermark) (refl, refl)
    | inr (slot, e) ↦ rw (e, store_watermark) (refl, refl)
  ]

  succeed-Leaves :
      (now : String) (outcome : PipelineOutcome) (w : Worker)
      → holds w ≡ true
      → Leaves (succeed x config fates job now outcome (without_ledger w)) true
  unfolding succeed
  succeed-Leaves now outcome w h = let (free, same) = store_watermark-Leaves w in (free, same ∙ h)

  run_job-Leaves :
      (round : Round) (n : ℕ) (w : Worker)
      → holds w ≡ true
      → Leaves
          (run_job x config fates round job n (without_ledger w))
          (kept n (run_fails round w.shared))
  unfolding run_job
  run_job-Leaves round n w h = elim (Option-cases round.cut) [
    | inr (left, e) ↦
        rw (e, run_job, run_fails)
          (give_up-Leaves n "pipeline timeout" (record w { shared = left }) h)
    | inl e ↦ elim (Result-cases (run_pipeline x config round.env job w.shared).0) [
      | inl (outcome, r) ↦
          rw (e, run_job, run_fails)
            (rw r (
              succeed-Leaves round.now outcome
                (record w { shared = (run_pipeline x config round.env job w.shared).1 }) h))
      | inr (m, r) ↦
          rw (e, run_job, run_fails)
            (rw r (
              give_up-Leaves n (error_text m)
                (record w { shared = (run_pipeline x config round.env job w.shared).1 }) h))
    ]
  ]

  -- A turn for a job that is in the set only notes the queue's depth.
  process-seen :
      (round : Round) (w : Worker)
      → holds w ≡ true
      → (process x config fates round job (without_ledger w)).shared ≡ w.shared
  unfolding process admit
  process-seen round w h = rw (h, admit) refl

  process-Leaves :
      (round : Round) (w : Worker)
      → holds w ≡ false
      → Leaves
          (process x config fates round job (without_ledger w))
          (kept (attempt_number w) (run_fails round w.shared))
  unfolding process admit start
  process-Leaves round w h =
      let taken = record w {
        processed = job.payment_uid ∷ w.processed;
        attempts = (job.payment_uid, attempt_number w) ∷ remove_count job.payment_uid w.attempts;
        health = record w.health { queue_depth = round.waiting };
      } in
      rw (h, process, admit)
        (run_job-Leaves round (attempt_number w) taken
          (ground (arith, bytes_eq_refl job.payment_uid)))

  -- Without a ledger, a turn for a job that is not in the set leaves it there, unless its run failed or
  -- timed out with attempts left: then the job can be taken again.
  pub process_memory_kept :
      (round : Round) (w : Worker)
      → holds w ≡ false
      → holds (process x config fates round job (without_ledger w))
        ≡ kept (attempt_number w) (run_fails round w.shared)
  process_memory_kept round w h = let (free, same) = process-Leaves round w h in same

  -- Without a ledger, two turns for a job that is not in the set: where the first one's run succeeds or
  -- uses up the attempts, the second hands over no transaction, sends no request and changes no counter.
  pub process_memory_once :
      (first second : Round) (w : Worker)
      → holds w ≡ false
      → kept (attempt_number w) (run_fails first w.shared) ≡ true
      → (process x config fates second job
          (process x config fates first job (without_ledger w))).shared
        ≡ (process x config fates first job (without_ledger w)).shared
  process_memory_once first second w new done =
      let after = process x config fates first job (without_ledger w) in
      let (free, same) = process-Leaves first w new in
      subst
        (λ o. (process x config fates second job (record after { db = o })).shared ≡ after.shared)
        (sym free) (process-seen second after (same ∙ done))
