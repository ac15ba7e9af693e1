-- ===== src/Monitor/Bounds.antt =====
-- src/chain.rs, `backfill_missed_deliveries`: the scan ends, within its bound.
use oracle_qa.Prelude.{
  ℕ, zero, suc, ◌+◌, ◌-◌, ◌≤◌, ◌<◌, ◌≡◌, ◌⊎◌, inl, inr, refl, String, Bytes, List, [], ◌∷◌, Option,
  some, Result, ok, err, arith, length, ltb, ◌==◌, Bool-cases, subst,
}
use oracle_qa.State.{OracleConfig}
use oracle_qa.External.{Deps}
use oracle_qa.Monitor.Backfill.{
  SignatureEntry, Surroundings, Scan, Turn, leave, again, wrapping_sub, send_job, look_up,
  scan_entry, scan_batch, want, scan_page, request, on_page, turn, scan_loop,
}

wrapping_sub_lem : (a b : ℕ) → b ≤ a → a < 18446744073709551616 → wrapping_sub a b ≡ a - b
unfolding wrapping_sub
wrapping_sub_lem a b h k = omega arith

pub Turn-cases : (t : Turn) → ((s : Scan) × (t ≡ leave s)) ⊎ ((s : Scan) × (t ≡ again s))
Turn-cases (leave s) = inl (s, refl)
Turn-cases (again s) = inr (s, refl)

-- The variables after a turn.
abbrev pub after : Turn → Scan
after (leave s) = s
after (again s) = s

module _ (x : Deps) (config : OracleConfig) (env : Surroundings) (last_seen_slot : ℕ) where
  scan_entry-scanned :
      (entry : SignatureEntry) (s : Scan)
      → (after (scan_entry x config env last_seen_slot entry s)).scanned ≡ s.scanned + 1
  unfolding scan_entry look_up send_job
  scan_entry-scanned entry s = ground arith

  -- At most `n` entries were counted when the loop is left, and exactly `n` when it goes on.
  abbrev Counts : ℕ → Turn → Type 0
  Counts n (leave t) = t.scanned ≤ n
  Counts n (again t) = t.scanned ≡ n

  Counts-cast : (n m : ℕ) (t : Turn) → n ≡ m → Counts n t → Counts m t
  Counts-cast n m t e h = subst (λ k. Counts k t) e h

  scan_batch-Counts :
      (batch : List SignatureEntry) (s : Scan)
      → Counts (s.scanned + length batch) (scan_batch x config env last_seen_slot batch s)
  unfolding scan_batch
  scan_batch-Counts [] s = omega arith
  scan_batch-Counts (entry ∷ entries) s =
      let one = scan_entry-scanned entry s in
      elim (Turn-cases (scan_entry x config env last_seen_slot entry s)) [
        | inl (t, e) ↦ rw (e, scan_batch) (omega (arith, rw e at one))
        | inr (t, e) ↦
            rw (e, scan_batch)
              (Counts-cast _ _ _ (omega (arith, rw e at one)) (scan_batch-Counts entries t))
      ]

  abbrev max : ℕ
  max = config.backfill_lookback_signatures

  -- A turn that goes on has counted an entry, and no turn counts more than the limit.
  abbrev Progresses : Scan → Turn → Type 0
  Progresses s (leave t) = t.scanned ≤ max
  Progresses s (again t) = (s.scanned < t.scanned) × (t.scanned ≤ max)

  scan_page-Progresses :
      (limit : ℕ) (entry : SignatureEntry) (entries : List SignatureEntry) (s : Scan)
      → s.scanned + length (entry ∷ entries) ≤ max
      → Progresses s (scan_page x config env last_seen_slot limit (entry ∷ entries) s)
  unfolding scan_page
  scan_page-Progresses limit entry entries s h =
      let counts = scan_batch-Counts (entry ∷ entries) s in
      elim (Turn-cases (scan_batch x config env last_seen_slot (entry ∷ entries) s)) [
        | inl (t, e) ↦ rw (e, scan_page) (omega (arith, h, rw e at counts))
        | inr (t, e) ↦ elim (Bool-cases (ltb (length (entry ∷ entries)) limit)) [
          | inl short ↦ rw (e, scan_page) (rw short (omega (arith, h, rw e at counts)))
          | inr full ↦
              rw (e, scan_page)
                (rw full (omega (arith, h, rw e at counts), omega (arith, h, rw e at counts)))
        ]
      ]

  module _
      (pages_bounded : (n : ℕ) (before : Option Bytes) (limit : ℕ) (batch : List SignatureEntry)
        → env.page n before limit ≡ ok batch
        → length batch ≤ limit)
      (machine : max < 18446744073709551616) where
    on_page-Progresses :
        (limit : ℕ) (reply : Result String (List SignatureEntry)) (s : Scan)
        → ((batch : List SignatureEntry) → reply ≡ ok batch → length batch ≤ limit)
        → s.scanned + limit ≤ max
        → Progresses s (on_page x config env last_seen_slot limit reply s)
    on_page-Progresses limit (err e) s few h = omega (arith, h)
    on_page-Progresses limit (ok []) s few h = omega (arith, h)
    on_page-Progresses limit (ok (entry ∷ entries)) s few h =
        scan_page-Progresses limit entry entries s (omega (arith, h, few (entry ∷ entries) refl))

    limit_fits : (s : Scan) → s.scanned ≤ max → s.scanned + want x config env last_seen_slot s ≤ max
    limit_fits s h = rw (wrapping_sub_lem max s.scanned h machine) (omega (arith, h))

    turn-Progresses :
        (s : Scan) → s.scanned ≤ max → Progresses s (turn x config env last_seen_slot s)
    unfolding turn
    turn-Progresses s h = elim (Bool-cases (want x config env last_seen_slot s == 0)) [
      | inl e ↦ rw (e, turn) h
      | inr e ↦
          rw (e, turn)
            (on_page-Progresses (want x config env last_seen_slot s) _
              (request x config env last_seen_slot s)
              (λ batch. pages_bounded s.pages s.before _ batch) (limit_fits s h))
    ]

    -- From `s` on, fuel for the entries that are left is enough.
    pub scan_loop_ends :
        (fuel : ℕ) (s : Scan)
        → s.scanned ≤ max
        → max < s.scanned + fuel
        → (t : Scan) × (scan_loop x config env last_seen_slot fuel s ≡ some t) × (t.scanned ≤ max)
    unfolding scan_loop
    scan_loop_ends zero s h k = absurd (omega (arith, h, k))
    scan_loop_ends (suc fuel) s h k =
        let progress = turn-Progresses s h in
        elim (Turn-cases (turn x config env last_seen_slot s)) [
          | inl (t, e) ↦ (t, rw (e, scan_loop) refl, (rw e at progress))
          | inr (t, e) ↦
              (let (grows, fits) = rw e at progress in
                let (u, found, bounded) = scan_loop_ends fuel t fits (omega (arith, grows, k)) in
                (u, rw (e, scan_loop) found, bounded))
        ]
