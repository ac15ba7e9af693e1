-- ===== src/Ledger/Working.antt =====
-- src/db.rs: the methods of `OracleDb` while every call works.
use oracle_qa.Prelude.{
  ℕ, ◌+◌, ◌≡◌, refl, String, Bytes, List, Option, none, some, Result, ok, [], ◌∷◌, Bool-cases, inl,
  inr, ap,
}
use oracle_qa.Prelude.Text.{str_eq, eq_iff}
use oracle_qa.Types.{EvaluationJob, EvaluationResult}
use oracle_qa.External.{Deps}
use oracle_qa.Ledger.Tables.{
  Status, detected, queued, running, failed, dead_letter, settled, JobRow, Payload, settled_payload,
  Tables, find_row, ParameterRow, find_parameter, put_parameter, insert_verdict, append_event,
}
use oracle_qa.Ledger.Rows.{merged, find_row-upsert_row}
use oracle_qa.Ledger.Calls.{
  Db, DbError, Call, Fate, works, ◌>>=◌, ◌>>◌, execute, ask, row_of, upsert_job, insert_event,
  record_detected, record_queued, record_started, record_failed, record_dead_letter, record_settled,
  verdict_of, final_row, is_terminal, row_attempts, attempt_count, set_parameter, get_parameter,
}

module _ (x : Deps) (fates : ℕ → Fate) (working : (n : ℕ) → fates n ≡ works) where
  execute_works :
      (effect : ℕ → Tables → Tables) (s : Db)
      → execute x fates effect s
        ≡ (ok tt, record { tables = effect s.calls s.tables; calls = s.calls + 1 })
  unfolding execute
  execute_works effect s = rw (working s.calls) refl

  pub ask_works :
      {A : Type 0} (answer : Tables → A) (s : Db)
      → ask x fates answer s ≡ (ok (answer s.tables), record s { calls = s.calls + 1 })
  unfolding ask
  ask_works answer s = rw (working s.calls) refl

  then_works :
      {A B : Type 0} (m : Call A) (n : Call B) (a : A) (s t : Db)
      → m s ≡ (ok a, t)
      → (m >> n) s ≡ n t
  unfolding ◌>>=◌
  then_works m n a s t e = rw e refl

  -- The row of a job.
  abbrev pub row_in : EvaluationJob → Db → Option JobRow
  row_in job s = find_row (x.hex job.payment_uid) s.tables.jobs

  abbrev Leaves : EvaluationJob → Db → JobRow → Result DbError (Unit {0}) × Db → Type 0
  Leaves job s row out =
      (out.0 ≡ ok tt) × (row_in job out.1 ≡ some (merged s.calls row (row_in job s)))

  upsert_event_works :
      (job : EvaluationJob) (status : Status) (e sig hash : Option String) (name : String)
      (payload : Payload) (s : Db)
      → Leaves job s
          (row_of x fates job status e sig hash)
          ((upsert_job x fates job status e sig hash >> insert_event x fates job name payload) s)
  unfolding upsert_job insert_event append_event
  upsert_event_works job status e sig hash name payload s =
      rw
        (then_works (upsert_job x fates job status e sig hash)
          (insert_event x fates job name payload) tt s _ (execute_works _ s))
        (rw (execute_works _ _) (refl, find_row-upsert_row s.calls _ s.tables.jobs))

  -- Each record leaves the row that its upsert makes.
  pub record_detected_works :
      (job : EvaluationJob) (s : Db)
      → Leaves job s (row_of x fates job detected none none none) (record_detected x fates job s)
  unfolding record_detected
  record_detected_works job s = upsert_event_works job detected none none none _ _ s

  pub record_queued_works :
      (job : EvaluationJob) (s : Db)
      → Leaves job s (row_of x fates job queued none none none) (record_queued x fates job s)
  unfolding record_queued
  record_queued_works job s = upsert_event_works job queued none none none _ _ s

  pub record_started_works :
      (job : EvaluationJob) (s : Db)
      → Leaves job s (row_of x fates job running none none none) (record_started x fates job s)
  unfolding record_started
  record_started_works job s = upsert_event_works job running none none none _ _ s

  pub record_failed_works :
      (job : EvaluationJob) (text : String) (s : Db)
      → Leaves job s
          (row_of x fates job failed (some text) none none)
          (record_failed x fates job text s)
  unfolding record_failed
  record_failed_works job text s = upsert_event_works job failed (some text) none none _ _ s

  pub record_dead_letter_works :
      (job : EvaluationJob) (text : String) (s : Db)
      → Leaves job s
          (row_of x fates job dead_letter (some text) none none)
          (record_dead_letter x fates job text s)
  unfolding record_dead_letter
  record_dead_letter_works job text s =
      upsert_event_works job dead_letter (some text) none none _ _ s

  pub record_settled_works :
      (job : EvaluationJob) (result : EvaluationResult) (sig : Option String) (hash : Bytes)
      (s : Db)
      → Leaves job s
          (row_of x fates job settled none sig (some (x.hex hash)))
          (record_settled x fates job result sig hash s)
  unfolding record_settled upsert_job insert_verdict insert_event append_event
  record_settled_works job result sig hash s =
      let rest = execute x fates (λ now. insert_verdict (verdict_of x fates job result sig hash)) in
      let last =
        insert_event x fates job "settled"
          (settled_payload result.approved result.resolution_reason (x.hex hash) sig) in
      let save = upsert_job x fates job settled none sig (some (x.hex hash)) in
      rw (then_works save (rest >> last) tt s _ (execute_works _ s)) (
        rw (then_works rest last tt _ _ (execute_works _ _))
          (rw (execute_works _ _) (refl, find_row-upsert_row s.calls _ s.tables.jobs)))

  pub attempt_count_works :
      (job : EvaluationJob) (s : Db)
      → attempt_count x fates job.payment_uid s
        ≡ (ok (row_attempts (row_in job s)), record s { calls = s.calls + 1 })
  unfolding attempt_count
  attempt_count_works job s = ask_works _ s

  pub is_terminal_works :
      (job : EvaluationJob) (s : Db)
      → is_terminal x fates job.payment_uid s
        ≡ (ok (final_row (row_in job s)), record s { calls = s.calls + 1 })
  unfolding is_terminal
  is_terminal_works job s = ask_works _ s

  pub set_parameter_works :
      (name value : String) (job : EvaluationJob) (s : Db)
      → row_in job (set_parameter x fates name value s).1 ≡ row_in job s
  unfolding set_parameter
  set_parameter_works name value job s = rw (execute_works _ s) refl

find_parameter-put_parameter :
    (name value : String) (rows : List ParameterRow)
    → find_parameter name (put_parameter name value rows) ≡ some value
unfolding find_parameter put_parameter
find_parameter-put_parameter name value [] = rw ((eq_iff name name).1 refl) refl
find_parameter-put_parameter name value (old ∷ rows) =
    elim (Bool-cases (str_eq old.param_name name)) [
      | inl e ↦ rw e (rw ((eq_iff name name).1 refl) refl)
      | inr e ↦ rw e (rw e (find_parameter-put_parameter name value rows))
    ]

module _ (x : Deps) (fates : ℕ → Fate) (working : (n : ℕ) → fates n ≡ works) where
  -- While every call works, a parameter that is set is read back, active, whatever rows there were.
  pub get_parameter-set_parameter :
      (name value : String) (s : Db)
      → (get_parameter x fates name (set_parameter x fates name value s).1).0 ≡ ok (some value)
  unfolding set_parameter get_parameter
  get_parameter-set_parameter name value s = rw (execute_works x fates working _ s) (
      rw (ask_works x fates working _ _)
        (ap ok (find_parameter-put_parameter name value s.tables.parameters)))
