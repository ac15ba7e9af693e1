-- ===== src/Monitor/Invariants.antt =====
-- src/chain.rs, `backfill_missed_deliveries`: what each entry keeps, the whole scan keeps.
use oracle_qa.Prelude.{
  ℕ, zero, suc, ◌+◌, ◌<◌, ◌≡◌, ◌⊎◌, inl, inr, refl, false, String, Bytes, List, [], ◌∷◌, Option,
  none, some, Result, ok, err, arith, length, ltb, leb, ◌==◌, In, Bool-cases, Option-cases,
  Result-cases, ◌&&◌, subst,
}
use oracle_qa.Types.{EvaluationJob}
use oracle_qa.State.{OracleConfig}
use oracle_qa.External.{Deps}
use oracle_qa.Monitor.Delivery.{fetch_delivery_job}
use oracle_qa.Monitor.Bounds.{Turn-cases, after}
use oracle_qa.Monitor.Backfill.{
  SignatureEntry, Surroundings, Scan, count_entry, send_job, look_up, scan_entry, scan_batch, want,
  scan_page, request, on_page, turn, scan_loop,
}

-- An entry of a page that the node sent.
pub record Listed (env : Surroundings) (entry : SignatureEntry) : Type 0 where
  pub number : ℕ
  pub before : Option Bytes
  pub limit : ℕ
  pub batch : List SignatureEntry
  pub sent : env.page number before limit ≡ ok batch
  pub member : In entry batch

-- A job that the scan took from a page: its entry did not fail, it is above the watermark where there
-- is one, and the job is that of its transaction.
pub record Missed (x : Deps) (config : OracleConfig) (env : Surroundings) (last_seen_slot : ℕ)
    (job : EvaluationJob) : Type 0 where
  pub entry : SignatureEntry
  pub listed : Listed env entry
  pub succeeded : entry.failed ≡ false
  pub fresh : (last_seen_slot ≡ 0) ⊎ (last_seen_slot < entry.slot)
  pub sig : Bytes
  pub parses : x.parse_signature entry.signature ≡ some sig
  pub moment : ℕ
  pub found : fetch_delivery_job x config (env.rpc moment) sig ≡ ok (some job)

module _ (x : Deps) (config : OracleConfig) (env : Surroundings) (last_seen_slot : ℕ) where
  module _ (I : Scan → Type 0)
      (counts : (entry : SignatureEntry) (s : Scan)
        → I s
        → I (count_entry x config env last_seen_slot entry s))
      (sends : (entry : SignatureEntry) (job : EvaluationJob) (sig : Bytes) (s : Scan)
        → Missed x config env last_seen_slot job
        → I s
        → I (record (count_entry x config env last_seen_slot entry s) {
          emitted = job ∷ s.emitted;
          before = some sig;
        }))
      (moves : (sig : Bytes) (s : Scan) → I s → I (record s { before = some sig }))
      (requests : (s : Scan) → I s → I (request x config env last_seen_slot s)) where
    abbrev counted : SignatureEntry → Scan → Scan
    counted entry s = count_entry x config env last_seen_slot entry s

    look_up_keeps :
        (entry : SignatureEntry) (sig : Bytes) (s : Scan)
        → ((job : EvaluationJob)
            → fetch_delivery_job x config (env.rpc (s.scanned + 1)) sig ≡ ok (some job)
            → Missed x config env last_seen_slot job)
        → I s
        → I (after (look_up x config env last_seen_slot sig (counted entry s)))
    unfolding look_up send_job
    look_up_keeps entry sig s found h =
        elim (Result-cases (fetch_delivery_job x config (env.rpc (s.scanned + 1)) sig)) [
          | inl (none, e) ↦ rw (e, look_up) (moves sig (counted entry s) (counts entry s h))
          | inl (some job, e) ↦ elim (Bool-cases (env.channel_open (length s.emitted))) [
            | inl free ↦
                rw (e, look_up) (rw (free, send_job) (sends entry job sig s (found job e) h))
            | inr closed ↦ rw (e, look_up) (rw (closed, send_job) (counts entry s h))
          ]
          | inr (m, e) ↦ rw (e, look_up) (moves sig (counted entry s) (counts entry s h))
        ]

    scan_entry_keeps :
        (entry : SignatureEntry) (s : Scan)
        → Listed env entry
        → I s
        → I (after (scan_entry x config env last_seen_slot entry s))
    unfolding scan_entry
    scan_entry_keeps entry s listed h =
        let known = counts entry s h in
        elim (Bool-cases (ltb 0 last_seen_slot && leb entry.slot last_seen_slot)) [
          | inl old ↦ rw (old, scan_entry) known
          | inr fresh ↦ elim (Bool-cases entry.failed) [
            | inl bad ↦ rw (fresh, scan_entry) (rw bad known)
            | inr good ↦ elim (Option-cases (x.parse_signature entry.signature)) [
              | inl e ↦ rw (fresh, scan_entry) (rw (good, e) known)
              | inr (sig, e) ↦
                  rw (fresh, scan_entry)
                    (rw (good, e)
                      (look_up_keeps entry sig s
                        (λ job found. record {
                          entry = entry;
                          listed = listed;
                          succeeded = good;
                          fresh = ground arith;
                          sig = sig;
                          parses = e;
                          moment = s.scanned + 1;
                          found = found;
                        })
                        h))
            ]
          ]
        ]

    scan_batch_keeps :
        (batch : List SignatureEntry) (s : Scan)
        → ((entry : SignatureEntry) → In entry batch → Listed env entry)
        → I s
        → I (after (scan_batch x config env last_seen_slot batch s))
    unfolding scan_batch
    scan_batch_keeps [] s listed h = h
    scan_batch_keeps (entry ∷ entries) s listed h =
        let one = scan_entry_keeps entry s (listed entry (inl refl)) h in
        elim (Turn-cases (scan_entry x config env last_seen_slot entry s)) [
          | inl (t, e) ↦ rw (e, scan_batch) (rw e at one)
          | inr (t, e) ↦
              rw (e, scan_batch)
                (scan_batch_keeps entries t (λ f m. listed f (inr m)) (rw e at one))
        ]

    on_page_keeps :
        (n : ℕ) (before : Option Bytes) (limit : ℕ) (reply : Result String (List SignatureEntry))
        (s : Scan)
        → env.page n before limit ≡ reply
        → I s
        → I (after (on_page x config env last_seen_slot limit reply s))
    unfolding scan_page
    on_page_keeps n before limit (err e) s sent h = h
    on_page_keeps n before limit (ok []) s sent h = h
    on_page_keeps n before limit (ok (entry ∷ entries)) s sent h =
        let kept =
          scan_batch_keeps (entry ∷ entries) s
            (λ f m. record {
              number = n;
              before = before;
              limit = limit;
              batch = entry ∷ entries;
              sent = sent;
              member = m;
            })
            h in
        elim (Turn-cases (scan_batch x config env last_seen_slot (entry ∷ entries) s)) [
          | inl (t, e) ↦ rw (e, scan_page) (rw e at kept)
          | inr (t, e) ↦ elim (Bool-cases (ltb (length (entry ∷ entries)) limit)) [
            | inl short ↦ rw (e, scan_page) (rw short (rw e at kept))
            | inr full ↦ rw (e, scan_page) (rw full (rw e at kept))
          ]
        ]

    turn_keeps : (s : Scan) → I s → I (after (turn x config env last_seen_slot s))
    unfolding turn
    turn_keeps s h = elim (Bool-cases (want x config env last_seen_slot s == 0)) [
      | inl e ↦ rw (e, turn) h
      | inr e ↦
          rw (e, turn)
            (on_page_keeps s.pages s.before (want x config env last_seen_slot s) _
              (request x config env last_seen_slot s) refl (requests s h))
    ]

    -- What the start satisfies and every change keeps, holds where the scan ends.
    pub scan_loop_keeps :
        (fuel : ℕ) (s t : Scan) → scan_loop x config env last_seen_slot fuel s ≡ some t → I s → I t
    unfolding scan_loop
    scan_loop_keeps zero s t e h = cc
    scan_loop_keeps (suc fuel) s t ended h =
        let kept = turn_keeps s h in
        elim (Turn-cases (turn x config env last_seen_slot s)) [
          | inl (u, e) ↦
              (let last : some u ≡ some t = rw (e, scan_loop) at ended in
                let same : u ≡ t = cc last in subst I same (rw e at kept))
          | inr (u, e) ↦ scan_loop_keeps fuel u t (rw (e, scan_loop) at ended) (rw e at kept)
        ]
