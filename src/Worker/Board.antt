-- ===== src/Worker/Board.antt =====
-- src/main.rs and src/db.rs: the worker with a ledger whose calls work, as a board of jobs. The board
-- tells of each payment uid how often its job was tried and how it stands; the ledger's order, its
-- other columns, events and verdicts are forgotten.
use oracle_qa.Prelude.{
  ℕ, ◌+◌, ◌≡◌, ◌∙◌, inl, inr, refl, ap, sym, subst, Bool, true, false, String, List, [], ◌∷◌,
  Option, none, some, leb, if◌then◌else◌, Bool-cases,
}
use oracle_qa.Prelude.Text.{str_eq, eq_iff}
use mathlib.Core.Path.{fun_ext}
use oracle_qa.Types.{EvaluationJob}
use oracle_qa.State.{OracleConfig}
use oracle_qa.External.{Deps}
use oracle_qa.Ledger.Tables.{Status, failed, dead_letter, settled, is_final, JobRow, find_row}
use oracle_qa.Ledger.Rows.{find_row-upsert_row_other}
use oracle_qa.Ledger.Calls.{Db, Fate, works, final_row, row_attempts}
use oracle_qa.Ledger.Working.{row_in}
use oracle_qa.Worker.Process.{Worker, Round, process}
use oracle_qa.Worker.Attempts.{row_now, status_after, failing}
use oracle_qa.Worker.Dedupe.{process_final, process-HasRow}
use oracle_qa.Worker.Frames.{process-Carried}
use oracle_qa.Worker.Losses.{process-KeepsRow}
use oracle_qa.Worker.Turns.{process_each}

abbrev pub Entry : Type 0
Entry = Option (ℕ × Status)

abbrev pub Board : Type 0
Board = String → Entry

abbrev pub entry_of : Option JobRow → Entry
entry_of none = none
entry_of (some row) = some (row.attempts, row.status)

abbrev pub board_of : Db → Board
board_of s uid = entry_of (find_row uid s.tables.jobs)

-- What a turn makes of a board. A job at its end is left alone. Any other has one more attempt, and is
-- settled, or failed, or, with its attempts used up, dead.
abbrev pub is_closed : Entry → Bool
is_closed none = false
is_closed (some e) = is_final e.1

abbrev pub tries : Entry → ℕ
tries none = 0
tries (some e) = e.0

abbrev pub standing : ℕ → ℕ → Bool → Status
standing most n false = settled
standing most n true = if leb most n then dead_letter else failed

abbrev pub next_entry : ℕ → Bool → Entry → Entry
next_entry most bad e =
    if is_closed e then e else some (tries e + 1, standing most (tries e + 1) bad)

abbrev pub step_board : ℕ → String × Bool → Board → Board
step_board most (uid, bad) b other =
    if str_eq uid other then next_entry most bad (b uid) else b other

abbrev pub run_board : ℕ → List (String × Bool) → Board → Board
run_board most [] b = b
run_board most (turn ∷ turns) b = run_board most turns (step_board most turn b)

pub is_closed-entry_of : (row : Option JobRow) → is_closed (entry_of row) ≡ final_row row
is_closed-entry_of none = refl
is_closed-entry_of (some row) = refl

pub tries-entry_of : (row : Option JobRow) → tries (entry_of row) ≡ row_attempts row
tries-entry_of none = refl
tries-entry_of (some row) = refl

module _ (x : Deps) (config : OracleConfig) (fates : ℕ → Fate)
    (working : (n : ℕ) → fates n ≡ works) where
  -- What the worker meets, turn by turn: the job's uid, and whether its run fails.
  abbrev pub report : Round × EvaluationJob → Worker → String × Bool
  report (round, job) w = (x.hex job.payment_uid, failing x config fates working job round w.shared)

  abbrev pub reports : List (Round × EvaluationJob) → Worker → List (String × Bool)
  reports [] w = []
  reports (turn ∷ turns) w = report turn w ∷ reports turns (process x config fates turn.0 turn.1 w)

  module _ (round : Round) (job : EvaluationJob) (w : Worker) (s : Db) where
    abbrev pub after : Worker
    after = process x config fates round job (record w { db = some s })

    -- The rows of the other jobs are as they were.
    pub others :
        (t : Db) (uid : String)
        → after.db ≡ some t
        → str_eq (x.hex job.payment_uid) uid ≡ false
        → find_row uid t.tables.jobs ≡ find_row uid s.tables.jobs
    others t uid there other =
        let c =
          process-Carried x config fates job (λ a b. find_row uid b ≡ find_row uid a) (λ rows. refl)
            (λ a b c h k. k ∙ h) (λ sig hash. Unit) tt
            (λ now status e sig hash rows may. find_row-upsert_row_other now _ uid rows other) round
            w s (λ admitted o told. tt) in
        let same : t ≡ c.left = cc (there, c.there) in
        subst (λ (u : Db). find_row uid u.tables.jobs ≡ find_row uid s.tables.jobs) (sym same)
          c.related

    abbrev pub bad : Bool
    bad = failing x config fates working job round w.shared

    abbrev pub row : Option JobRow
    row = row_in x fates working job s

    standing-status_after :
        (n : ℕ) (b : Bool)
        → status_after x config fates working job n b ≡ standing config.dead_letter_max_attempts n b
    standing-status_after n true = refl
    standing-status_after n false = refl

    -- The row of the turn's job.
    pub own :
        (t : Db)
        → after.db ≡ some t
        → entry_of (row_in x fates working job t)
          ≡ next_entry config.dead_letter_max_attempts bad (entry_of row)
    own t there = elim (Bool-cases (final_row row)) [
      | inl final ↦
          (let left : t ≡ record s { calls = s.calls + 1 } = cc (
            there,
            ap (λ (v : Worker). v.db) (process_final x config fates working job round w s final),
          ) in
            rw (is_closed-entry_of row ∙ final)
              (ap (λ u. entry_of (row_in x fates working job u)) left))
      | inr fresh ↦
          (let (r, found, count, status) =
              process-HasRow x config fates working job round w s fresh in
            let here : row_in x fates working job t ≡ some r =
              subst (λ o. row_now x config fates working job (record after { db = o }) ≡ some r)
                there found in
            rw (is_closed-entry_of row ∙ fresh) (
              rw (tries-entry_of row) (
                ap entry_of here
                ∙ ap some (λ i. (count i, (status ∙ standing-status_after _ bad) i)))))
    ]

    step_refines :
        (t : Db)
        → after.db ≡ some t
        → board_of t
          ≡ step_board config.dead_letter_max_attempts (report (round, job) w) (board_of s)
    step_refines t there = fun_ext λ uid. elim (Bool-cases (str_eq (x.hex job.payment_uid) uid)) [
      | inl e ↦ rw e (
          subst
            (λ u.
              entry_of (find_row u t.tables.jobs)
              ≡ next_entry config.dead_letter_max_attempts bad (entry_of row))
            ((eq_iff (x.hex job.payment_uid) uid).0 e) (own t there))
      | inr e ↦ rw e (ap entry_of (others t uid there e))
    ]

  -- With a ledger whose calls work, the worker does to the board of jobs exactly what the board's own
  -- rule says, whatever jobs it is given and however their runs end: a job at its end is left alone, any
  -- other gets one more attempt and is settled, failed or, with its attempts used up, dead, and no turn
  -- touches the entry of another job.
  pub process_each_refines :
      (turns : List (Round × EvaluationJob)) (w : Worker) (s : Db)
      → (t : Db) × ((process_each x config fates turns (record w { db = some s })).db ≡ some t)
        × (board_of t
            ≡ run_board config.dead_letter_max_attempts
                (reports turns (record w { db = some s }))
                (board_of s))
  process_each_refines [] w s = (s, refl, refl)
  process_each_refines ((round, job) ∷ turns) w s =
      let v = process x config fates round job (record w { db = some s }) in
      let (u, there, kept) = process-KeepsRow "" x config fates round job w s in
      let (t, there2, refined) = process_each_refines turns v u in
      let same : record v { db = some u } ≡ v = ap (λ o. record v { db = o }) (sym there) in
      (
        t,
        subst (λ y. (process_each x config fates turns y).db ≡ some t) same there2,
        subst
            (λ y.
              board_of t
              ≡ run_board config.dead_letter_max_attempts (reports turns y)
                  (step_board config.dead_letter_max_attempts (report (round, job) w) (board_of s)))
            same
            (refined
              ∙ ap
                  (run_board config.dead_letter_max_attempts
                    (reports turns (record v { db = some u })))
                  (step_refines round job w s u there)),
      )
