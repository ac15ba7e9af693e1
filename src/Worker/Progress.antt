-- ===== src/Worker/Progress.antt =====
-- src/main.rs, the worker with a ledger whose calls work: every job comes to an end.
use oracle_qa.Prelude.{
  ℕ, ◌+◌, ◌≤◌, ◌<◌, ◌≡◌, ◌⊎◌, inl, inr, refl, ap, sym, subst, Bool, true, false, List, [], ◌∷◌,
  Option, some, arith, length, leb, Bool-cases,
}
use oracle_qa.Types.{EvaluationJob}
use oracle_qa.State.{OracleConfig}
use oracle_qa.External.{Deps}
use oracle_qa.Ledger.Tables.{JobRow, failed, dead_letter, is_final}
use oracle_qa.Ledger.Calls.{Db, Fate, works, final_row, row_attempts}
use oracle_qa.Ledger.Working.{row_in}
use oracle_qa.Worker.Process.{Worker, Round, process}
use oracle_qa.Worker.Attempts.{tried, ledger_of, row_now, status_after}
use oracle_qa.Worker.Dedupe.{process_final, process-HasRow}
use oracle_qa.Worker.Retries.{process_all, allowed, has_ledger}

module _ (x : Deps) (config : OracleConfig) (fates : ℕ → Fate) (working : (n : ℕ) → fates n ≡ works)
    (job : EvaluationJob) where
  -- The job is finished, or the turns that are left are enough to use up its attempts.
  abbrev Nears : ℕ → Option JobRow → Type 0
  Nears left row =
      (final_row row ≡ true)
      ⊎ ((final_row row ≡ false)
          × (0 < left)
          × (allowed x config fates job ≤ left + row_attempts row))

  status_after-Nears :
      (r : JobRow) (n left : ℕ) (bad : Bool)
      → allowed x config fates job ≤ left + n
      → r.attempts ≡ n
      → r.status ≡ status_after x config fates working job n bad
      → Nears left (some r)
  status_after-Nears r n left false h e k = inl (ap is_final k)
  status_after-Nears r n left true h e k =
      elim (Bool-cases (leb config.dead_letter_max_attempts n)) [
        | inl dead ↦ (let d : r.status ≡ dead_letter = rw dead at k in inl (ap is_final d))
        | inr alive ↦
            (let d : r.status ≡ failed = rw alive at k in
              let few : n < config.dead_letter_max_attempts = ground arith in
              inr (ap is_final d, omega (arith, h, few), omega (arith, h, e)))
      ]

  Ends : Worker → Type 0
  Ends w = (s : Db) × (w.db ≡ some s) × (final_row (row_in x fates working job s) ≡ true)

  NearsIn : ℕ → Worker → Type 0
  NearsIn left w = (s : Db) × (w.db ≡ some s) × Nears left (row_in x fates working job s)

  process-NearsIn :
      (round : Round) (left : ℕ) (w : Worker) (s : Db)
      → Nears (left + 1) (row_in x fates working job s)
      → NearsIn left (process x config fates round job (ledger_of x config fates working job w s))
  unfolding NearsIn
  process-NearsIn round left w s (inl final) =
      subst (NearsIn left) (sym (process_final x config fates working job round w s final))
        (record s { calls = s.calls + 1 }, refl, inl final)
  process-NearsIn round left w s (inr (fresh, some_left, enough)) =
      let (r, row, count, status) = process-HasRow x config fates working job round w s fresh in
      let after = process x config fates round job (ledger_of x config fates working job w s) in
      let (t, there, found) = has_ledger x config fates working job after after.db r refl row in
      (
        t,
        there,
        subst (Nears left) (sym found) (
            status_after-Nears r (tried x config fates working job s + 1) left _
              (omega (arith, enough)) count status),
      )

  process_all-Ends :
      (rounds : List Round) (w : Worker)
      → NearsIn (length rounds) w
      → Ends (process_all x config fates job rounds w)
  unfolding NearsIn Ends
  process_all-Ends [] w (s, there, inl final) = (s, there, final)
  process_all-Ends [] w (s, there, inr (fresh, some_left, enough)) =
      absurd (omega (arith, some_left))
  process_all-Ends (round ∷ rounds) w (s, there, near) = process_all-Ends rounds _ (
      subst (λ o. NearsIn (length rounds) (process x config fates round job (record w { db = o })))
        (sym there)
        (process-NearsIn round (length rounds) w s
          (subst (λ n. Nears n (row_in x fates working job s)) (omega arith) near)))

  -- Whatever becomes of each run, as many turns for a job as dead letters allow attempts bring it to an
  -- end in a ledger whose calls work: its row is then settled or dead-lettered, whatever it was before.
  pub process_all_ends :
      (rounds : List Round) (w : Worker) (s : Db)
      → allowed x config fates job ≤ length rounds
      → final_row (
          row_now x config fates working job
            (process_all x config fates job rounds (ledger_of x config fates working job w s)))
        ≡ true
  unfolding NearsIn Ends
  process_all_ends rounds w s enough =
      let start : Nears (length rounds) (row_in x fates working job s) =
        elim (Bool-cases (final_row (row_in x fates working job s))) [
          | inl final ↦ inl final
          | inr fresh ↦ inr (fresh, omega (arith, enough), omega (arith, enough))
        ] in
      let (t, there, final) =
        process_all-Ends rounds (ledger_of x config fates working job w s) (s, refl, start) in
      subst
        (λ o.
          final_row (
            row_now x config fates working job
              (record (process_all x config fates job rounds
                (ledger_of x config fates working job w s)) { db = o }))
          ≡ true)
        (sym there) final
