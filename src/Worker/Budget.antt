-- ===== src/Worker/Budget.antt =====
-- src/main.rs, the worker with a ledger whose calls work: how many transactions a payment may cost.
use oracle_qa.Prelude.{
  ℕ, ◌+◌, ◌-◌, ◌≤◌, ◌≡◌, ◌∙◌, inl, inr, refl, ap, sym, subst, Bool, true, false, String, List, [],
  ◌∷◌, some, arith, max, leb, if◌then◌else◌, Bool-cases,
}
use oracle_qa.Prelude.Text.{str_eq, eq_iff, eq_refl}
use oracle_qa.Types.{EvaluationJob}
use oracle_qa.State.{OracleConfig}
use oracle_qa.External.{Deps}
use oracle_qa.Pipeline.Exec.{Shared}
use oracle_qa.Ledger.Calls.{Db, Fate, works}
use oracle_qa.Worker.Process.{Worker, Round, process}
use oracle_qa.Worker.Dedupe.{process_final}
use oracle_qa.Worker.Losses.{process-KeepsRow}
use oracle_qa.Worker.Turns.{process_each}
use oracle_qa.Worker.Board.{
  Entry, board_of, entry_of, is_closed, tries, next_entry, is_closed-entry_of, after, bad, row, own,
  others,
}
use oracle_qa.Worker.Transactions.{count_for, IsPart, process-Grows, count_for-Grows}

-- The attempts that a job has left: none at its end, else at least one, and as many as dead letters
-- allow where it was never tried.
abbrev pub room : ℕ → Entry → ℕ
room most e = if is_closed e then 0 else max 1 (most - tries e)

room_next :
    (most : ℕ) (b : Bool) (e : Entry)
    → is_closed e ≡ false
    → room most (next_entry most b e) + 1 ≤ room most e
room_next most false e opened = rw opened (omega arith)
room_next most true e opened = elim (Bool-cases (leb most (tries e + 1))) [
  | inl dead ↦ rw opened (rw dead (omega arith))
  | inr alive ↦ rw opened (rw alive (ground arith))
]

module _ (x : Deps) (config : OracleConfig) (fates : ℕ → Fate)
    (working : (n : ℕ) → fates n ≡ works) where
  abbrev pub room_in : Db → String → ℕ
  room_in s uid = room config.dead_letter_max_attempts (board_of s uid)

  own_budget :
      (round : Round) (job : EvaluationJob) (w : Worker) (s t : Db)
      → IsPart x config fates job round w.shared
      → (after x config fates working round job w s).db ≡ some t
      → count_for
            (x.hex job.payment_uid)
            (after x config fates working round job w s).shared.submitted
          + room_in t (x.hex job.payment_uid)
        ≤ count_for (x.hex job.payment_uid) w.shared.submitted + room_in s (x.hex job.payment_uid)
  own_budget round job w s t part there =
      let uid = x.hex job.payment_uid in
      let v = after x config fates working round job w s in
      let e = entry_of (row x config fates working round job w s) in
      let most = config.dead_letter_max_attempts in
      let moved : room_in t uid
          ≡ room most (next_entry most (bad x config fates working round job w s) e) =
        ap (room most) (own x config fates working round job w s t there) in
      let grown =
        count_for-Grows x config fates job uid round w.shared v.shared
          (process-Grows x config fates job round (record w { db = some s }) part) in
      elim (Bool-cases (is_closed e)) [
        | inl closed ↦
            (let still : v.shared ≡ w.shared =
                ap (λ (u : Worker). u.shared)
                  (process_final x config fates working job round w s (
                    sym (is_closed-entry_of (row x config fates working round job w s))
                    ∙ closed)) in
              let idle : room most (next_entry most (bad x config fates working round job w s) e)
                  ≡ room most e =
                rw closed (rw closed refl) in
              omega (arith, ap (λ (u : Shared). count_for uid u.submitted) still, moved, idle))
        | inr opened ↦ omega (
          arith,
          moved,
          rw (eq_refl uid) at grown,
          room_next most (bad x config fates working round job w s) e opened,
        )
      ]

  turn_budget :
      (round : Round) (job : EvaluationJob) (w : Worker) (s t : Db) (uid : String)
      → IsPart x config fates job round w.shared
      → (after x config fates working round job w s).db ≡ some t
      → count_for uid (after x config fates working round job w s).shared.submitted + room_in t uid
        ≤ count_for uid w.shared.submitted + room_in s uid
  turn_budget round job w s t uid part there =
      let v = after x config fates working round job w s in
      let grown =
        count_for-Grows x config fates job uid round w.shared v.shared
          (process-Grows x config fates job round (record w { db = some s }) part) in
      elim (Bool-cases (str_eq (x.hex job.payment_uid) uid)) [
        | inr other ↦
            (let kept : board_of t uid ≡ board_of s uid =
                ap entry_of (others x config fates working round job w s t uid there other) in
              omega (arith, rw other at grown, ap (room config.dead_letter_max_attempts) kept))
        | inl mine ↦
            subst
              (λ u.
                count_for u v.shared.submitted + room_in t u
                ≤ count_for u w.shared.submitted + room_in s u)
              ((eq_iff (x.hex job.payment_uid) uid).0 mine) (own_budget round job w s t part there)
      ]

  -- Every run that is cut off had handed over nothing yet, or what the whole run hands over.
  abbrev pub AllParts : List (Round × EvaluationJob) → Worker → Type 0
  AllParts [] w = Unit
  AllParts ((round, job) ∷ turns) w =
      IsPart x config fates job round w.shared × AllParts turns (process x config fates round job w)

  budget_kept :
      (turns : List (Round × EvaluationJob)) (w : Worker) (s : Db) (uid : String)
      → AllParts turns (record w { db = some s })
      → (t : Db) × (count_for uid
              (process_each x config fates turns (record w { db = some s })).shared.submitted
            + room_in t uid
          ≤ count_for uid w.shared.submitted + room_in s uid)
  budget_kept [] w s uid parts = (s, omega arith)
  budget_kept ((round, job) ∷ turns) w s uid (part, parts) =
      let v = after x config fates working round job w s in
      let (u, there, kept) = process-KeepsRow uid x config fates round job w s in
      let same : v ≡ record v { db = some u } = ap (λ o. record v { db = o }) there in
      let (t, few) = budget_kept turns v u uid (subst (AllParts turns) same parts) in
      (
        t,
        subst
            (λ y.
              count_for uid (process_each x config fates turns y).shared.submitted + room_in t uid
              ≤ count_for uid w.shared.submitted + room_in s uid)
            (sym same) (omega (arith, few, turn_budget round job w s u uid part there)),
      )

  -- With a ledger whose calls work, and whatever jobs it is given in whatever order, the worker hands
  -- over no more transactions for a payment than the payment's job has attempts left: none where the job
  -- is settled or dead-lettered, and at most as many as dead letters allow where the ledger does not
  -- hold it. A run that the timeout cuts off had
  -- handed over nothing yet, or what the whole run hands over.
  pub process_each_budget :
      (turns : List (Round × EvaluationJob)) (w : Worker) (s : Db) (uid : String)
      → AllParts turns (record w { db = some s })
      → count_for uid
          (process_each x config fates turns (record w { db = some s })).shared.submitted
        ≤ count_for uid w.shared.submitted + room_in s uid
  process_each_budget turns w s uid parts =
      let (t, few) = budget_kept turns w s uid parts in omega (arith, few)
