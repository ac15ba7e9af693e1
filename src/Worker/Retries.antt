-- ===== src/Worker/Retries.antt =====
-- src/main.rs, the worker with a ledger whose calls work: how often a job is tried.
use oracle_qa.Prelude.{
  ℕ, zero, suc, ◌+◌, ◌≤◌, ◌<◌, ◌≡◌, ◌∙◌, ◌⊎◌, inl, inr, refl, ap, sym, Bool, true, false, List, [],
  ◌∷◌, Option, none, some, arith, leb, Bool-cases, subst, max,
}
use oracle_qa.Types.{EvaluationJob}
use oracle_qa.State.{OracleConfig}
use oracle_qa.External.{Deps}
use oracle_qa.Ledger.Tables.{failed, dead_letter, JobRow, is_final}
use oracle_qa.Ledger.Calls.{Db, Fate, works, final_row, row_attempts}
use oracle_qa.Ledger.Working.{row_in}
use oracle_qa.Worker.Process.{Worker, Round, process}
use oracle_qa.Worker.Attempts.{tried, ledger_of, row_now, status_after, failing}
use oracle_qa.Worker.Dedupe.{process_final, process-HasRow}

module _ (x : Deps) (config : OracleConfig) (fates : ℕ → Fate) (job : EvaluationJob) where
  -- The worker takes the job again and again.
  abbrev pub process_all : List Round → Worker → Worker
  process_all [] w = w
  process_all (round ∷ rounds) w = process_all rounds (process x config fates round job w)

  abbrev pub allowed : ℕ
  allowed = max 1 config.dead_letter_max_attempts

  -- All turns but `n` at most hand over no transaction, send no request and change no counter.
  abbrev pub TriedAtMost : ℕ → List Round → Worker → Type 0
  TriedAtMost n [] w = Unit
  TriedAtMost n (round ∷ rounds) w =
      let v = process x config fates round job w in
      ((v.shared ≡ w.shared) × TriedAtMost n rounds v)
      ⊎ ((m : ℕ) × (n ≡ m + 1) × TriedAtMost m rounds v)

module _ (x : Deps) (config : OracleConfig) (fates : ℕ → Fate) (working : (n : ℕ) → fates n ≡ works)
    (job : EvaluationJob) where
  abbrev Within : Option JobRow → Type 0
  Within row =
      ((final_row row ≡ false) × (row_attempts row < allowed x config fates job))
      ⊎ ((final_row row ≡ true) × (row_attempts row ≤ allowed x config fates job))

  status_after-Within :
      (r : JobRow) (n : ℕ) (bad : Bool)
      → n ≤ allowed x config fates job
      → r.attempts ≡ n
      → r.status ≡ status_after x config fates working job n bad
      → Within (some r)
  status_after-Within r n false h e k = inr (ap is_final k, omega (arith, h, e))
  status_after-Within r n true h e k = elim (Bool-cases (leb config.dead_letter_max_attempts n)) [
    | inl dead ↦
        (let d : r.status ≡ dead_letter = rw dead at k in inr (ap is_final d, omega (arith, h, e)))
    | inr alive ↦
        (let d : r.status ≡ failed = rw alive at k in inl (ap is_final d, ground (arith, e)))
  ]

  row_of : Worker → Option JobRow
  row_of w = row_now x config fates working job w

  pub has_ledger :
      (w : Worker) (o : Option Db) (r : JobRow)
      → w.db ≡ o
      → row_now x config fates working job (record w { db = o }) ≡ some r
      → (s : Db) × (w.db ≡ some s) × (row_in x fates working job s ≡ some r)
  has_ledger w none r e h = cc
  has_ledger w (some s) r e h = (s, e, h)

  -- Where the job is at its end in the ledger, no turn does anything.
  idle-TriedAtMost :
      (n : ℕ) (rounds : List Round) (w : Worker) (s : Db)
      → final_row (row_in x fates working job s) ≡ true
      → TriedAtMost x config fates job n rounds (ledger_of x config fates working job w s)
  idle-TriedAtMost n [] w s final = tt
  idle-TriedAtMost n (round ∷ rounds) w s final =
      let done = process_final x config fates working job round w s final in
      inl (
        ap (λ (v : Worker). v.shared) done,
        subst (TriedAtMost x config fates job n rounds) (sym done) (
            idle-TriedAtMost n rounds
              (record w { health = record w.health { queue_depth = round.waiting } })
              (record s { calls = s.calls + 1 }) final),
      )

  -- The turns that do anything are at most as many as the attempts that are left.
  rest-TriedAtMost :
      (n : ℕ) (rounds : List Round) (w : Worker) (s : Db)
      → Within (row_in x fates working job s)
      → allowed x config fates job ≤ row_attempts (row_in x fates working job s) + n
      → TriedAtMost x config fates job n rounds (ledger_of x config fates working job w s)
  rest-TriedAtMost n [] w s within enough = tt
  rest-TriedAtMost n rounds w s (inr (final, few)) enough = idle-TriedAtMost n rounds w s final
  rest-TriedAtMost zero (round ∷ rounds) w s (inl (fresh, few)) enough =
      absurd (omega (arith, few, enough))
  rest-TriedAtMost (suc n) (round ∷ rounds) w s (inl (fresh, few)) enough =
      let (r, row, count, status) = process-HasRow x config fates working job round w s fresh in
      let after = process x config fates round job (ledger_of x config fates working job w s) in
      let (t, there, found) = has_ledger after after.db r refl row in
      inr (
        n,
        omega arith,
        subst (λ o. TriedAtMost x config fates job n rounds (record after { db = o })) (sym there)
            (rest-TriedAtMost n rounds after t
              (subst Within (sym found) (
                status_after-Within r (tried x config fates working job s + 1) _
                  (omega (arith, few)) count status))
              (omega (arith, ap row_attempts found, count, enough))),
      )

  -- However often the worker is given a job that its working ledger does not hold yet, it tries the job
  -- in at most as many of these turns as dead letters allow attempts, and in one at most where they
  -- allow none: every other turn hands over no transaction, sends no request and changes no counter.
  pub process_all_tries :
      (rounds : List Round) (w : Worker) (s : Db)
      → row_in x fates working job s ≡ none
      → TriedAtMost x config fates job
          (allowed x config fates job)
          rounds
          (ledger_of x config fates working job w s)
  process_all_tries rounds w s new =
      rest-TriedAtMost (allowed x config fates job) rounds w s
        (subst Within (sym new) (inl (refl, omega arith))) (omega arith)

  -- Two turns for a job that is not finished in a ledger whose calls work: where the first settles it or
  -- uses up its attempts, the second hands over no transaction, sends no request and changes no counter.
  pub process_once :
      (first second : Round) (w : Worker) (s : Db)
      → final_row (row_in x fates working job s) ≡ false
      → is_final (
          status_after x config fates working job
            (tried x config fates working job s + 1)
            (failing x config fates working job first w.shared))
        ≡ true
      → (process x config fates second job
          (process x config fates first job (ledger_of x config fates working job w s))).shared
        ≡ (process x config fates first job (ledger_of x config fates working job w s)).shared
  process_once first second w s fresh final =
      let (r, row, count, status) = process-HasRow x config fates working job first w s fresh in
      let after = process x config fates first job (ledger_of x config fates working job w s) in
      let (t, there, found) = has_ledger after after.db r refl row in
      let done : final_row (row_in x fates working job t) ≡ true =
        ap final_row found ∙ (ap is_final status ∙ final) in
      subst
        (λ o. (process x config fates second job (record after { db = o })).shared ≡ after.shared)
        (sym there)
        (ap (λ (v : Worker). v.shared)
          (process_final x config fates working job second after t done))
