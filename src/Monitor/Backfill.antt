-- ===== src/Monitor/Backfill.antt =====
-- src/chain.rs, `backfill_missed_deliveries`: the scan of the escrow program's signatures, from the
-- newest back, for deliveries made while the oracle was offline.
use oracle_qa.Prelude.{
  ℕ, zero, suc, ◌+◌, ◌-◌, ◌%◌, ◌&&◌, Bool, true, false, String, Bytes, List, [], ◌∷◌, Option, none,
  some, Result, ok, err, min, ltb, leb, ◌==◌, if◌then◌else◌, length,
}
use oracle_qa.Prelude.Text.{show, parse_u64}
use oracle_qa.Types.{EvaluationJob, RuntimeHealth}
use oracle_qa.State.{OracleConfig}
use oracle_qa.External.{Deps}
use oracle_qa.Monitor.Delivery.{Rpc, fetch_delivery_job}

-- An entry of `getSignaturesForAddress`.
pub record SignatureEntry : Type 0 where
  pub slot : ℕ  -- u64
  pub signature : String
  pub failed : Bool

-- What the scan meets: the n-th page for a cursor and a limit, the RPC node after n entries, the
-- channel's state at the n-th send, and the ledger's reply where there is a ledger.
pub record Surroundings : Type 0 where
  pub page : ℕ → Option Bytes → ℕ → Result String (List SignatureEntry)
  pub rpc : ℕ → Rpc
  pub channel_open : ℕ → Bool
  pub stored_slot : Option (Result String (Option String))

-- The variables of the loop; `emitted` holds the jobs that were sent, the latest first, and `pages`
-- counts the requests.
pub record Scan : Type 0 where
  pub pages : ℕ
  pub scanned : ℕ  -- usize
  pub before : Option Bytes
  pub emitted : List EvaluationJob
  pub highest_slot : ℕ  -- u64

-- Subtraction on `usize` in a release build.
unfoldable pub wrapping_sub : ℕ → ℕ → ℕ
wrapping_sub a b = (a + (18446744073709551616 - b % 18446744073709551616)) % 18446744073709551616

-- `if a > b { b = a }`.
unfoldable pub raise : ℕ → ℕ → ℕ
raise a b = if ltb b a then a else b

-- `batch.is_empty()` and the body of the loop's `match` on the page.
pub data Turn : Type 0 where
  leave : Scan → Turn
  again : Scan → Turn

module _ (x : Deps) (config : OracleConfig) (env : Surroundings) (last_seen_slot : ℕ) where
  open x use {parse_signature}

  -- `scanned += 1`, and the highest slot.
  abbrev pub count_entry : SignatureEntry → Scan → Scan
  count_entry entry s = record s {
    scanned = s.scanned + 1;
    highest_slot = raise entry.slot s.highest_slot;
  }

  unfoldable pub send_job : EvaluationJob → Bytes → Scan → Turn
  send_job job sig s =
      if env.channel_open (length s.emitted)
      then again (record s { emitted = job ∷ s.emitted; before = some sig })
      else leave s

  -- One entry; `leave` is `break 'outer`.
  unfoldable pub look_up : Bytes → Scan → Turn
  look_up sig s = elim (fetch_delivery_job x config (env.rpc s.scanned) sig) [
    | ok (some job) ↦ send_job job sig s
    | ok none ↦ again (record s { before = some sig })
    | err e ↦ again (record s { before = some sig })
  ]

  unfoldable pub scan_entry : SignatureEntry → Scan → Turn
  scan_entry entry old =
      let s = count_entry entry old in
      if ltb 0 last_seen_slot && leb entry.slot last_seen_slot
      then leave s
      else if entry.failed
      then again s
      else (elim (parse_signature entry.signature) [ none ↦ again s | some sig ↦ look_up sig s ])

  -- `for entry in &batch`.
  unfoldable pub scan_batch : List SignatureEntry → Scan → Turn
  scan_batch [] s = again s
  scan_batch (entry ∷ entries) s = elim (scan_entry entry s) [
    | leave t ↦ leave t
    | again t ↦ scan_batch entries t
  ]

  abbrev pub want : Scan → ℕ
  want s = min (wrapping_sub config.backfill_lookback_signatures s.scanned) 1000

  -- A page that is not empty; the loop goes on when the page was full.
  unfoldable pub scan_page : ℕ → List SignatureEntry → Scan → Turn
  scan_page limit batch s = elim (scan_batch batch s) [
    | leave t ↦ leave t
    | again t ↦ if ltb (length batch) limit then leave t else again t
  ]

  abbrev pub request : Scan → Scan
  request s = record s { pages = s.pages + 1 }

  abbrev pub on_page : ℕ → Result String (List SignatureEntry) → Scan → Turn
  on_page limit (err e) s = leave s
  on_page limit (ok []) s = leave s
  on_page limit (ok (entry ∷ entries)) s = scan_page limit (entry ∷ entries) s

  -- One turn of the outer loop.
  unfoldable pub turn : Scan → Turn
  turn s =
      if want s == 0
      then leave s
      else on_page (want s) (env.page s.pages s.before (want s)) (request s)

  -- The outer loop, on fuel: `none` is a loop that has not ended.
  unfoldable pub scan_loop : ℕ → Scan → Option Scan
  scan_loop zero s = none
  scan_loop (suc fuel) s = elim (turn s) [ leave t ↦ some t | again t ↦ scan_loop fuel t ]

-- `raw.parse().unwrap_or(0)` of the stored parameter, and 0 where there is none.
unfoldable pub stored_last_seen_slot : Option (Result String (Option String)) → ℕ
stored_last_seen_slot none = 0
stored_last_seen_slot (some (err e)) = 0
stored_last_seen_slot (some (ok none)) = 0
stored_last_seen_slot (some (ok (some raw))) = elim (parse_u64 raw) [ none ↦ 0 | some slot ↦ slot ]

-- What a backfill leaves behind: the jobs that were sent, the latest first, the value handed to
-- `set_parameter`, and the health record.
pub record Backfilled : Type 0 where
  pub sent : List EvaluationJob
  pub persisted : Option String
  pub health : RuntimeHealth

abbrev pub first_scan : ℕ → Scan
first_scan last_seen_slot = record {
  pages = 0;
  scanned = 0;
  before = none;
  emitted = [];
  highest_slot = last_seen_slot;
}

unfoldable pub raise_health : ℕ → RuntimeHealth → RuntimeHealth
raise_health slot h = record h { last_seen_slot = raise slot h.last_seen_slot }

abbrev pub is_some : {A : Type 0} → Option A → Bool
is_some none = false
is_some (some a) = true

unfoldable pub record_watermark :
    Option (Result String (Option String)) → RuntimeHealth → Scan → Backfilled
record_watermark ledger h s = record {
  sent = s.emitted;
  persisted = if is_some ledger && ltb 0 s.highest_slot then some (show s.highest_slot) else none;
  health = if ltb 0 s.highest_slot then raise_health s.highest_slot h else h;
}

module _ (x : Deps) (config : OracleConfig) (env : Surroundings) where
  abbrev pub finish_scan : RuntimeHealth → Option Scan → Option Backfilled
  finish_scan h none = none
  finish_scan h (some s) = some (record_watermark env.stored_slot h s)

  -- `none` is a scan that has not ended within the fuel.
  unfoldable pub backfill_missed_deliveries : ℕ → RuntimeHealth → Option Backfilled
  backfill_missed_deliveries fuel h =
      let last_seen_slot = stored_last_seen_slot env.stored_slot in
      let s = scan_loop x config env last_seen_slot fuel (first_scan last_seen_slot) in
      if config.backfill_lookback_signatures == 0
      then some (record { sent = []; persisted = none; health = h })
      else finish_scan h s

-- `persist_slot_watermark`: the value handed to `set_parameter`.
unfoldable pub persist_slot_watermark : RuntimeHealth → Option String
persist_slot_watermark h = if h.last_seen_slot == 0 then none else some (show h.last_seen_slot)
