-- ===== src/Monitor/Restart.antt =====
-- src/chain.rs, `backfill_missed_deliveries`: what a restart catches up on.
use oracle_qa.Prelude.{
  ℕ, suc, ◌≤◌, ◌<◌, ◌≡◌, ◌⊎◌, inl, inr, refl, String, Bytes, List, [], Option, none, some, ok,
  arith, length, ltb, ◌==◌, All, Bool-cases, Option-cases, subst, sym,
}
use oracle_qa.Prelude.Text.{show}
use oracle_qa.Types.{EvaluationJob, RuntimeHealth}
use oracle_qa.State.{OracleConfig}
use oracle_qa.External.{Deps}
use oracle_qa.Monitor.Justified.{Justified, fetch_delivery_job-Justified}
use oracle_qa.Monitor.Bounds.{scan_loop_ends}
use oracle_qa.Monitor.Invariants.{Missed, scan_loop_keeps}
use oracle_qa.Monitor.Backfill.{
  SignatureEntry, Surroundings, Scan, raise, scan_loop, stored_last_seen_slot, Backfilled,
  first_scan, raise_health, is_some, record_watermark, backfill_missed_deliveries,
}

module _ (x : Deps) (config : OracleConfig) (env : Surroundings) where
  abbrev stored : ℕ
  stored = stored_last_seen_slot env.stored_slot

  abbrev loop : ℕ → Option Scan
  loop fuel = scan_loop x config env stored fuel (first_scan stored)

  -- A backfill that ends has nothing to do, or is what its loop ended with.
  backfill_cases :
      (fuel : ℕ) (h : RuntimeHealth) (r : Backfilled)
      → backfill_missed_deliveries x config env fuel h ≡ some r
      → (r ≡ record { sent = []; persisted = none; health = h })
        ⊎ ((s : Scan) × (loop fuel ≡ some s) × (r ≡ record_watermark env.stored_slot h s))
  unfolding backfill_missed_deliveries
  backfill_cases fuel h r e = elim (Bool-cases (config.backfill_lookback_signatures == 0)) [
    | inl off ↦ inl (ground arith)
    | inr on ↦ elim (Option-cases (loop fuel)) [
      | inl stuck ↦ absurd (ground arith)
      | inr (s, found) ↦ inr (s, found, ground arith)
    ]
  ]

  -- A backfill result satisfies what its loop keeps.
  Few : Scan → Type 0
  Few s = length s.emitted ≤ s.scanned

  loop-Few : (fuel : ℕ) (s : Scan) → loop fuel ≡ some s → Few s
  unfolding Few
  loop-Few fuel s e =
      scan_loop_keeps x config env stored Few (λ entry s h. omega (arith, h))
        (λ entry job sig s m h. omega (arith, h)) (λ sig s h. h) (λ s h. h) fuel (first_scan stored)
        s e (omega arith)

  -- Each job that was sent is a missed delivery, and justified by the chain when it was looked up.
  abbrev pub IsCatch : EvaluationJob → Type 0
  IsCatch job =
      (m : Missed x config env stored job) × Justified x config (env.rpc m.moment) m.sig job

  caught : (job : EvaluationJob) → Missed x config env stored job → IsCatch job
  caught job m = (m, fetch_delivery_job-Justified x config (env.rpc m.moment) m.sig job m.found)

  AllCaught : Scan → Type 0
  AllCaught s = All IsCatch s.emitted

  loop-AllCaught : (fuel : ℕ) (s : Scan) → loop fuel ≡ some s → AllCaught s
  unfolding AllCaught
  loop-AllCaught fuel s e =
      scan_loop_keeps x config env stored AllCaught (λ entry s h. h)
        (λ entry job sig s m h. (caught job m, h)) (λ sig s h. h) (λ s h. h) fuel
        (first_scan stored) s e tt

  -- Every job that a backfill sends is a missed delivery: it comes from a page that the node sent, of
  -- an entry that did not fail and is above the stored watermark where there is one, and it is the
  -- justified job of that entry's transaction.
  pub backfill-IsCatch :
      (fuel : ℕ) (h : RuntimeHealth) (r : Backfilled)
      → backfill_missed_deliveries x config env fuel h ≡ some r
      → All IsCatch r.sent
  unfolding record_watermark AllCaught
  backfill-IsCatch fuel h r e = elim (backfill_cases fuel h r e) [
    | inl same ↦ rw same tt
    | inr (s, found, same) ↦
        subst (λ (q : Backfilled). All IsCatch q.sent) (sym same) (loop-AllCaught fuel s found)
  ]

  -- The highest slot does not fall below the stored one.
  High : Scan → Type 0
  High s = stored ≤ s.highest_slot

  raise_le : (a b : ℕ) → b ≤ raise a b
  unfolding raise
  raise_le a b = ground arith

  loop-High : (fuel : ℕ) (s : Scan) → loop fuel ≡ some s → High s
  unfolding High
  loop-High fuel s e =
      scan_loop_keeps x config env stored High
        (λ entry s h. omega (arith, h, raise_le entry.slot s.highest_slot))
        (λ entry job sig s m h. omega (arith, h, raise_le entry.slot s.highest_slot)) (λ sig s h. h)
        (λ s h. h) fuel (first_scan stored) s e (omega arith)

  -- What a backfill may store as the watermark.
  abbrev pub IsWatermark : RuntimeHealth → Option String → Type 0
  IsWatermark h none = Unit
  IsWatermark h (some text) =
      (slot : ℕ) × (text ≡ show slot) × (stored ≤ slot) × (0 < slot) × (slot ≤ h.last_seen_slot)

  record_watermark-IsWatermark :
      (h : RuntimeHealth) (s : Scan)
      → High s
      → (h.last_seen_slot ≤ (record_watermark env.stored_slot h s).health.last_seen_slot)
        × IsWatermark
            (record_watermark env.stored_slot h s).health
            (record_watermark env.stored_slot h s).persisted
  unfolding record_watermark raise_health High raise
  record_watermark-IsWatermark h s high = elim (Bool-cases (ltb 0 s.highest_slot)) [
    | inr low ↦ rw low (ground arith)
    | inl up ↦ elim (Bool-cases (is_some env.stored_slot)) [
      | inl has ↦
          rw (up, has) (ground arith, (s.highest_slot, refl, high, ground arith, ground arith))
      | inr bare ↦ rw (up, bare) (ground arith, tt)
    ]
  ]

  -- A backfill never lowers the slot in the health record, and a watermark that it stores is positive,
  -- not below the stored one and not above the health record's.
  pub backfill-IsWatermark :
      (fuel : ℕ) (h : RuntimeHealth) (r : Backfilled)
      → backfill_missed_deliveries x config env fuel h ≡ some r
      → (h.last_seen_slot ≤ r.health.last_seen_slot) × IsWatermark r.health r.persisted
  backfill-IsWatermark fuel h r e = elim (backfill_cases fuel h r e) [
    | inl same ↦
        subst
          (λ (q : Backfilled).
            (h.last_seen_slot ≤ q.health.last_seen_slot) × IsWatermark q.health q.persisted)
          (sym same) (omega arith, tt)
    | inr (s, found, same) ↦
        subst
          (λ (q : Backfilled).
            (h.last_seen_slot ≤ q.health.last_seen_slot) × IsWatermark q.health q.persisted)
          (sym same) (record_watermark-IsWatermark h s (loop-High fuel s found))
  ]

  -- Where the node sends no more entries than asked for and the lookback fits the machine, a backfill
  -- ends within one turn more than its lookback, and sends at most that many jobs.
  pub backfill_ends :
      (h : RuntimeHealth)
      → ((n : ℕ) (before : Option Bytes) (limit : ℕ) (batch : List SignatureEntry)
          → env.page n before limit ≡ ok batch
          → length batch ≤ limit)
      → config.backfill_lookback_signatures < 18446744073709551616
      → (r : Backfilled) × (backfill_missed_deliveries x config env
            (suc config.backfill_lookback_signatures)
            h
          ≡ some r)
        × (length r.sent ≤ config.backfill_lookback_signatures)
  unfolding backfill_missed_deliveries record_watermark Few
  backfill_ends h bounded machine =
      let (s, found, scanned) =
        scan_loop_ends x config env stored bounded machine (suc config.backfill_lookback_signatures)
          (first_scan stored) (omega arith) (omega arith) in
      let few = loop-Few (suc config.backfill_lookback_signatures) s found in
      elim (Bool-cases (config.backfill_lookback_signatures == 0)) [
        | inl off ↦ (
          record { sent = []; persisted = none; health = h },
          rw (off, backfill_missed_deliveries) refl,
          omega arith,
        )
        | inr on ↦ (
          record_watermark env.stored_slot h s,
          rw (on, backfill_missed_deliveries) (rw found refl),
          omega (arith, few, scanned),
        )
      ]
