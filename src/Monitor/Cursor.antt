-- ===== src/Monitor/Cursor.antt =====
-- src/chain.rs, `backfill_missed_deliveries`: the cursor of the next request.
use oracle_qa.Prelude.{
  ℕ, ◌+◌, ◌≤◌, ◌<◌, ◌≡◌, ◌≢◌, ◌⊎◌, refl, true, false, List, [], ◌∷◌, none, ok, arith, length, ltb,
  ◌==◌, All,
}
use oracle_qa.State.{OracleConfig}
use oracle_qa.External.{Deps}
use oracle_qa.Monitor.Backfill.{
  SignatureEntry, Surroundings, Scan, Turn, again, count_entry, scan_entry, scan_batch, want,
  scan_page, request, turn,
}

module _ (x : Deps) (config : OracleConfig) (env : Surroundings) (last_seen_slot : ℕ) where
  -- An entry above the watermark that the loop passes over: it failed, or its signature is no
  -- signature.
  abbrev pub PassedOver : SignatureEntry → Type 0
  PassedOver entry =
      ((last_seen_slot ≡ 0) ⊎ (last_seen_slot < entry.slot))
      × ((entry.failed ≡ true) ⊎ (x.parse_signature entry.signature ≡ none))

  scan_entry-PassedOver :
      (entry : SignatureEntry) (s : Scan)
      → PassedOver entry
      → scan_entry x config env last_seen_slot entry s
        ≡ again (count_entry x config env last_seen_slot entry s)
  unfolding scan_entry
  scan_entry-PassedOver entry s h = ground arith

  -- The variables but for the counts.
  abbrev SameCursor : Scan → Turn → Type 0
  SameCursor s t =
      (u : Scan) × (t ≡ again u)
      × (u.before ≡ s.before)
      × (u.emitted ≡ s.emitted)
      × (u.pages ≡ s.pages)

  scan_batch-SameCursor :
      (batch : List SignatureEntry) (s : Scan)
      → All PassedOver batch
      → SameCursor s (scan_batch x config env last_seen_slot batch s)
  unfolding scan_batch
  scan_batch-SameCursor [] s h = (s, refl, refl, refl, refl)
  scan_batch-SameCursor (entry ∷ entries) s (h, hs) =
      rw (scan_entry-PassedOver entry s h, scan_batch)
        (scan_batch-SameCursor entries (count_entry x config env last_seen_slot entry s) hs)

  -- A full page of entries that are all passed over leaves the cursor as it was: nothing is sent, and
  -- the next request asks for the page before the same signature again.
  pub turn-PassedOver :
      (s : Scan) (entry : SignatureEntry) (entries : List SignatureEntry)
      → want x config env last_seen_slot s ≢ 0
      → env.page s.pages s.before (want x config env last_seen_slot s) ≡ ok (entry ∷ entries)
      → want x config env last_seen_slot s ≤ length (entry ∷ entries)
      → All PassedOver (entry ∷ entries)
      → (t : Scan) × (turn x config env last_seen_slot s ≡ again t)
        × (t.before ≡ s.before)
        × (t.emitted ≡ s.emitted)
        × (t.pages ≡ s.pages + 1)
  unfolding turn scan_page
  turn-PassedOver s entry entries some_left sent full passed =
      let limit = want x config env last_seen_slot s in
      let (t, e, same, quiet, next) =
        scan_batch-SameCursor (entry ∷ entries) (request x config env last_seen_slot s) passed in
      let left : (limit == 0) ≡ false = ground (arith, some_left) in
      let whole : ltb (length (entry ∷ entries)) limit ≡ false = ground (arith, full) in
      (t, rw (left, turn) (rw sent (rw (e, scan_page) (rw whole refl))), same, quiet, next)
