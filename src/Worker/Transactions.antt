-- ===== src/Worker/Transactions.antt =====
-- src/main.rs: how many transactions the worker hands over for one payment.
use oracle_qa.Prelude.{
  ℕ, ◌+◌, ◌≤◌, ◌≡◌, ◌∙◌, ◌⊎◌, inl, inr, refl, ap, sym, subst, String, List, [], ◌∷◌, ◌++◌, some,
  arith, leb, if◌then◌else◌, Bool-cases, Option-cases, Result-cases,
}
use oracle_qa.Prelude.Text.{str_eq}
use oracle_qa.Error.{error_text}
use oracle_qa.Types.{EvaluationJob}
use oracle_qa.State.{OracleConfig}
use oracle_qa.External.{Deps}
use oracle_qa.Settler.Confirm.{ConfirmOracle}
use oracle_qa.Pipeline.Exec.{Shared}
use oracle_qa.Pipeline.Run.{PipelineOutcome, run_pipeline}
use oracle_qa.Pipeline.Soundness.{IsJustified, run_pipeline-Submits}
use oracle_qa.Monitor.Backfill.{persist_slot_watermark}
use oracle_qa.Ledger.Calls.{Fate, record_detected, record_queued}
use oracle_qa.Worker.Process.{
  Worker, Round, seen, with_ledger, admit, start, store_watermark, succeed, give_up, run_job, work,
  process,
}

-- The transactions for a payment, by the text of its uid.
abbrev pub count_for : String → List ConfirmOracle → ℕ
count_for uid [] = 0
count_for uid (tx ∷ txs) =
    let rest = count_for uid txs in if str_eq tx.payment_uid_hex uid then rest + 1 else rest

count_for-append :
    (uid : String) (txs : List ConfirmOracle) (tx : ConfirmOracle)
    → count_for uid (txs ++ tx ∷ []) ≡ count_for uid (tx ∷ txs)
count_for-append uid [] tx = refl
count_for-append uid (t ∷ txs) tx = ground (arith, count_for-append uid txs tx)

module _ (x : Deps) (config : OracleConfig) (fates : ℕ → Fate) (job : EvaluationJob) where
  -- Nothing was handed over, or one transaction, which a run for the job justifies.
  abbrev pub Grows : Round → Shared → Shared → Type 0
  Grows round s t =
      (t.submitted ≡ s.submitted)
      ⊎ ((tx : ConfirmOracle) × (t.submitted ≡ s.submitted ++ tx ∷ [])
          × IsJustified x config round.env job tx)

  -- A run that is cut off had handed over nothing yet, or what the whole run hands over.
  abbrev pub IsPart : Round → Shared → Type 0
  IsPart round s =
      (left : Shared)
      → round.cut ≡ some left
      → (left.submitted ≡ s.submitted)
        ⊎ (left.submitted ≡ (run_pipeline x config round.env job s).1.submitted)

  IsPart-Grows :
      (round : Round) (s left : Shared)
      → round.cut ≡ some left
      → IsPart round s
      → Grows round s left
  IsPart-Grows round s left e part = elim (part left e) [
    | inl nothing ↦ inl nothing
    | inr whole ↦ elim (run_pipeline-Submits x config round.env job s) [
      | inl same ↦ inl (whole ∙ same)
      | inr (tx, more, why) ↦ inr (tx, whole ∙ more, why)
    ]
  ]

  succeed_shared :
      (now : String) (o : PipelineOutcome) (w : Worker)
      → (succeed x config fates job now o w).shared.submitted ≡ w.shared.submitted
  unfolding succeed
  succeed_shared now o w = elim (Option-cases (persist_slot_watermark w.health)) [
    | inl e ↦ rw (e, store_watermark) refl
    | inr (slot, e) ↦ rw (e, store_watermark) refl
  ]

  give_up_shared :
      (n : ℕ) (text : String) (w : Worker)
      → (give_up x config fates job n text w).shared.submitted ≡ w.shared.submitted
  unfolding give_up
  give_up_shared n text w = elim (Bool-cases (leb config.dead_letter_max_attempts n)) [
    | inl e ↦ rw e refl
    | inr e ↦ rw e refl
  ]

  run_job-Grows :
      (round : Round) (n : ℕ) (w : Worker)
      → IsPart round w.shared
      → Grows round w.shared (run_job x config fates round job n w).shared
  unfolding run_job
  run_job-Grows round n w part = elim (Option-cases round.cut) [
    | inr (left, e) ↦
        rw (e, run_job)
          (rw (give_up_shared n "pipeline timeout" (record w { shared = left }))
            (IsPart-Grows round w.shared left e part))
    | inl e ↦ elim (Result-cases (run_pipeline x config round.env job w.shared).0) [
      | inl (o, r) ↦
          rw (e, run_job)
            (rw r (
              rw
                (succeed_shared round.now o
                  (record w { shared = (run_pipeline x config round.env job w.shared).1 }))
                (run_pipeline-Submits x config round.env job w.shared)))
      | inr (m, r) ↦
          rw (e, run_job)
            (rw r (
              rw
                (give_up_shared n (error_text m)
                  (record w { shared = (run_pipeline x config round.env job w.shared).1 }))
                (run_pipeline-Submits x config round.env job w.shared)))
    ]
  ]

  pub admit_shared : (w : Worker) → (admit x config fates job w).1.shared ≡ w.shared
  unfolding admit
  admit_shared w = elim (Option-cases w.db) [
    | inr (s, e) ↦ rw (e, admit) refl
    | inl e ↦ elim (Bool-cases (seen job.payment_uid w.processed)) [
      | inl known ↦ rw (e, admit) (rw known refl)
      | inr new ↦ rw (e, admit) (rw new refl)
    ]
  ]

  pub start_shared : (w : Worker) → (start x config fates job w).1.shared ≡ w.shared
  unfolding start
  start_shared w = elim (Option-cases w.db) [
    | inr (s, e) ↦ rw (e, start) refl
    | inl e ↦ rw (e, start) refl
  ]

  work-Grows :
      (round : Round) (w : Worker)
      → IsPart round w.shared
      → Grows round w.shared (work x config fates round job w).shared
  work-Grows round w part =
      let queued =
        with_ledger x config fates (record_queued x fates job)
          (with_ledger x config fates (record_detected x fates job) w) in
      let started = (start x config fates job queued).1 in
      let same : started.shared ≡ w.shared = start_shared queued in
      subst (λ s. Grows round s (work x config fates round job w).shared) same
        (run_job-Grows round _ started (subst (IsPart round) (sym same) part))

  -- One turn hands over at most one transaction, for its own job.
  pub process-Grows :
      (round : Round) (w : Worker)
      → IsPart round w.shared
      → Grows round w.shared (process x config fates round job w).shared
  unfolding process
  process-Grows round w part =
      let noted : Worker = record w { health = record w.health { queue_depth = round.waiting } } in
      let admitted = (admit x config fates job noted).1 in
      let same : admitted.shared ≡ w.shared = admit_shared noted in
      elim (Bool-cases (admit x config fates job noted).0) [
        | inl e ↦ rw e (
            subst (λ s. Grows round s (work x config fates round job admitted).shared) same
              (work-Grows round admitted (subst (IsPart round) (sym same) part)))
        | inr e ↦ rw e (inl (ap (λ (s : Shared). s.submitted) same))
      ]

  pub count_for-Grows :
      (uid : String) (round : Round) (s t : Shared)
      → Grows round s t
      → count_for uid t.submitted
        ≤ count_for uid s.submitted + (if str_eq (x.hex job.payment_uid) uid then 1 else 0)
  count_for-Grows uid round s t (inl same) = omega (arith, ap (count_for uid) same)
  count_for-Grows uid round s t (inr (tx, more, why)) =
      let one : str_eq tx.payment_uid_hex uid ≡ str_eq (x.hex job.payment_uid) uid =
        ap (λ u. str_eq u uid) why.payment in
      let all : count_for uid t.submitted ≡ count_for uid (tx ∷ s.submitted) =
        ap (count_for uid) more ∙ count_for-append uid s.submitted tx in
      ground (arith, one, all)
