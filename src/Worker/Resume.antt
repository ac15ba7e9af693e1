-- ===== src/Worker/Resume.antt =====
-- src/main.rs and src/chain.rs: the watermark that a worker leaves is where the next start resumes.
use oracle_qa.Prelude.{
  ℕ, ◌≤◌, ◌<◌, ◌≡◌, ◌∙◌, inl, inr, refl, ap, subst, String, Option, some, Result, map_err, arith,
  All, u64_max, List, [], ◌∷◌, ◌==◌, false,
}
use oracle_qa.Prelude.Text.{show}
use oracle_qa.Prelude.Decimal.{parse_u64-show}
use oracle_qa.Types.{EvaluationJob, RuntimeHealth, param_last_seen_slot}
use oracle_qa.State.{OracleConfig}
use oracle_qa.External.{Deps}
use oracle_qa.Pipeline.Run.{PipelineOutcome}
use oracle_qa.Ledger.Calls.{
  Db, Fate, works, db_error_text, get_parameter, set_parameter, record_settled,
}
use oracle_qa.Ledger.Working.{get_parameter-set_parameter}
use oracle_qa.Monitor.Backfill.{
  Surroundings, Backfilled, stored_last_seen_slot, persist_slot_watermark,
  backfill_missed_deliveries,
}
use oracle_qa.Monitor.Invariants.{Missed}
use oracle_qa.Monitor.Restart.{IsCatch, backfill-IsCatch}
use oracle_qa.Worker.Process.{Worker, with_ledger, store_watermark, succeed}
use oracle_qa.Worker.Attempts.{ledger_of}

module _ (x : Deps) (config : OracleConfig) (fates : ℕ → Fate)
    (working : (n : ℕ) → fates n ≡ works) where
  -- What a later start is told of the watermark.
  abbrev pub told : Db → Option (Result String (Option String))
  told s = some (map_err db_error_text (get_parameter x fates param_last_seen_slot s).0)

  told-set_parameter :
      (slot : ℕ) (s : Db)
      → slot ≤ u64_max
      → stored_last_seen_slot (told (set_parameter x fates param_last_seen_slot (show slot) s).1)
        ≡ slot
  unfolding stored_last_seen_slot
  told-set_parameter slot s fits =
      rw (get_parameter-set_parameter x fates working param_last_seen_slot (show slot) s)
        (rw (parse_u64-show slot fits, stored_last_seen_slot) refl)

  persists :
      (h : RuntimeHealth)
      → 0 < h.last_seen_slot
      → persist_slot_watermark h ≡ some (show h.last_seen_slot)
  unfolding persist_slot_watermark
  persists h seen =
      let positive : (h.last_seen_slot == 0) ≡ false = ground arith in rw positive refl

  stores :
      (w : Worker)
      → 0 < w.health.last_seen_slot
      → store_watermark x config fates w
        ≡ with_ledger x config fates
            (set_parameter x fates param_last_seen_slot (show w.health.last_seen_slot))
            w
  stores w seen = rw (persists w.health seen, store_watermark) refl

  -- The ledger after the arm for a run that is right: the settlement and then the watermark.
  pub succeed_db :
      (job : EvaluationJob) (now : String) (outcome : PipelineOutcome) (w : Worker) (s : Db)
      → 0 < w.health.last_seen_slot
      → (succeed x config fates job now outcome (ledger_of x config fates working job w s)).db
        ≡ some
            (set_parameter x fates param_last_seen_slot
              (show w.health.last_seen_slot)
              (record_settled x fates job outcome.result outcome.signature outcome.resolution_hash
                s).1).1
  unfolding succeed
  succeed_db job now outcome w s seen =
      ap (λ (v : Worker). v.db)
        (stores
          (record w {
            db =
                some
                  (record_settled x fates job outcome.result outcome.signature
                    outcome.resolution_hash s).1;
          })
          seen)

  stored_last_seen_slot-succeed :
      (job : EvaluationJob) (now : String) (outcome : PipelineOutcome) (w : Worker) (s t : Db)
      → 0 < w.health.last_seen_slot
      → w.health.last_seen_slot ≤ u64_max
      → (succeed x config fates job now outcome (ledger_of x config fates working job w s)).db
        ≡ some t
      → stored_last_seen_slot (told t) ≡ w.health.last_seen_slot
  stored_last_seen_slot-succeed job now outcome w s t seen fits e =
      let left : t
          ≡ (set_parameter x fates param_last_seen_slot (show w.health.last_seen_slot)
              (record_settled x fates job outcome.result outcome.signature outcome.resolution_hash
                s).1).1 =
        cc (succeed_db job now outcome w s seen, e) in
      ap (λ u. stored_last_seen_slot (told u)) left ∙ told-set_parameter _ _ fits

  -- A missed delivery above the slot.
  abbrev pub IsAbove : Surroundings → ℕ → EvaluationJob → Type 0
  IsAbove env slot job = (m : Missed x config env slot job) × (slot < m.entry.slot)

  IsAbove-All :
      (env : Surroundings) (slot : ℕ) (jobs : List EvaluationJob)
      → 0 < slot
      → stored_last_seen_slot env.stored_slot ≡ slot
      → All (IsCatch x config env) jobs
      → All (IsAbove env slot) jobs
  IsAbove-All env slot [] seen e h = tt
  IsAbove-All env slot (job ∷ jobs) seen e ((m, justified), h) = (
    subst (λ n. IsAbove env n job) e
        (
          m,
          elim m.fresh [
            | inl zero_slot ↦ absurd (omega (arith, seen, e, zero_slot))
            | inr above ↦ above
          ],
        ),
    IsAbove-All env slot jobs seen e h,
  )

  -- The slot that the monitor has seen is stored with a settlement, in a ledger whose calls work, and a
  -- later start reads that very number back: its backfill sends only missed deliveries of entries above
  -- that slot. The slot is positive and fits a `u64`.
  pub succeed_resumes :
      (job : EvaluationJob) (now : String) (outcome : PipelineOutcome) (w : Worker) (s t : Db)
      (env : Surroundings) (fuel : ℕ) (h : RuntimeHealth) (r : Backfilled)
      → 0 < w.health.last_seen_slot
      → w.health.last_seen_slot ≤ u64_max
      → (succeed x config fates job now outcome (ledger_of x config fates working job w s)).db
        ≡ some t
      → env.stored_slot ≡ told t
      → backfill_missed_deliveries x config env fuel h ≡ some r
      → (stored_last_seen_slot env.stored_slot ≡ w.health.last_seen_slot)
        × All (IsAbove env w.health.last_seen_slot) r.sent
  succeed_resumes job now outcome w s t env fuel h r seen fits e later done =
      let same : stored_last_seen_slot env.stored_slot ≡ w.health.last_seen_slot =
        ap stored_last_seen_slot later
        ∙ stored_last_seen_slot-succeed job now outcome w s t seen fits e in
      (same, IsAbove-All env _ r.sent seen same (backfill-IsCatch x config env fuel h r done))
