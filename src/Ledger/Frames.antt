-- ===== src/Ledger/Frames.antt =====
-- src/db.rs: what each method of `OracleDb` does to the rows of the jobs, whatever becomes of its calls.
use oracle_qa.Prelude.{ℕ, true, false, String, Bytes, List, Option, none, some, Result, ok, err}
use oracle_qa.Types.{EvaluationJob, EvaluationResult}
use oracle_qa.External.{Deps}
use oracle_qa.Ledger.Tables.{
  Status, JobRow, Tables, Payload, upsert_row, append_event, insert_verdict,
}
use oracle_qa.Ledger.Calls.{
  Db, DbError, Call, Fate, works, no_connection, refused, too_late, outcome, continue, ◌>>=◌, ◌>>◌,
  execute, ask, row_of, upsert_job, insert_event, record_detected, record_queued, record_started,
  record_failed, record_dead_letter, record_settled, is_terminal, attempt_count, set_parameter,
}

-- A relation between the rows before and after that holds where nothing changes, that chains, and that
-- each upsert for the job respects that brings no signature and hash, or such as may be written.
module _ (x : Deps) (fates : ℕ → Fate) (job : EvaluationJob)
    (R : List JobRow → List JobRow → Type 0) (same : (rows : List JobRow) → R rows rows)
    (chain : (a b c : List JobRow) → R a b → R b c → R a c)
    (MayWrite : Option String → Option String → Type 0) (blank : MayWrite none none)
    (upserts : (now : ℕ) (status : Status) (e sig hash : Option String) (rows : List JobRow)
      → MayWrite sig hash
      → R rows (upsert_row now (row_of x fates job status e sig hash) rows)) where
  abbrev pub jobs_of : Db → List JobRow
  jobs_of s = s.tables.jobs

  abbrev pub Respects : {A : Type 0} → Call A → Type 0
  Respects call = (s : Db) → R (jobs_of s) (jobs_of (call s).1)

  outcome_jobs :
      {A : Type 0} (fate : Fate) (a : A) (s : Db) (t : Tables)
      → R (jobs_of s) t.jobs
      → R (jobs_of s) (jobs_of (outcome x fates fate a s t).1)
  outcome_jobs works a s t h = h
  outcome_jobs (no_connection e) a s t h = same (jobs_of s)
  outcome_jobs (refused e) a s t h = same (jobs_of s)
  outcome_jobs (too_late true) a s t h = h
  outcome_jobs (too_late false) a s t h = same (jobs_of s)

  execute-Respects :
      (effect : ℕ → Tables → Tables)
      → ((now : ℕ) (t : Tables) → R t.jobs (effect now t).jobs)
      → Respects (execute x fates effect)
  unfolding execute
  execute-Respects effect h s =
      outcome_jobs (fates s.calls) tt s (effect s.calls s.tables) (h s.calls s.tables)

  ask-Respects : {A : Type 0} (answer : Tables → A) → Respects (ask x fates answer)
  unfolding ask
  ask-Respects answer s =
      outcome_jobs (fates s.calls) (answer s.tables) s s.tables (same (jobs_of s))

  then-Respects :
      {A B : Type 0} (m : Call A) (n : Call B) → Respects m → Respects n → Respects (m >> n)
  unfolding ◌>>=◌
  then-Respects {A = A} m n hm hn s = go (m s) (hm s)
    where
      go :
          (out : Result DbError A × Db)
          → R (jobs_of s) (jobs_of out.1)
          → R (jobs_of s) (jobs_of (continue out.0 (λ _. n) out.1).1)
      go (ok a, t) h = chain (jobs_of s) (jobs_of t) (jobs_of (n t).1) h (hn t)
      go (err e, t) h = h

  upsert_job-Respects :
      (status : Status) (e sig hash : Option String)
      → MayWrite sig hash
      → Respects (upsert_job x fates job status e sig hash)
  unfolding upsert_job
  upsert_job-Respects status e sig hash may =
      execute-Respects _ (λ now t. upserts now status e sig hash t.jobs may)

  insert_event-Respects :
      (event : String) (payload : Payload) → Respects (insert_event x fates job event payload)
  unfolding insert_event append_event
  insert_event-Respects event content = execute-Respects _ (λ now t. same t.jobs)

  pub record_detected-Respects : Respects (record_detected x fates job)
  unfolding record_detected
  record_detected-Respects =
      then-Respects _ _ (upsert_job-Respects _ _ _ _ blank) (insert_event-Respects _ _)

  pub record_queued-Respects : Respects (record_queued x fates job)
  unfolding record_queued
  record_queued-Respects =
      then-Respects _ _ (upsert_job-Respects _ _ _ _ blank) (insert_event-Respects _ _)

  pub record_started-Respects : Respects (record_started x fates job)
  unfolding record_started
  record_started-Respects =
      then-Respects _ _ (upsert_job-Respects _ _ _ _ blank) (insert_event-Respects _ _)

  pub record_failed-Respects : (text : String) → Respects (record_failed x fates job text)
  unfolding record_failed
  record_failed-Respects text =
      then-Respects _ _ (upsert_job-Respects _ _ _ _ blank) (insert_event-Respects _ _)

  pub record_dead_letter-Respects : (text : String) → Respects (record_dead_letter x fates job text)
  unfolding record_dead_letter
  record_dead_letter-Respects text =
      then-Respects _ _ (upsert_job-Respects _ _ _ _ blank) (insert_event-Respects _ _)

  pub record_settled-Respects :
      (result : EvaluationResult) (sig : Option String) (hash : Bytes)
      → MayWrite sig (some (x.hex hash))
      → Respects (record_settled x fates job result sig hash)
  unfolding record_settled insert_verdict
  record_settled-Respects result sig hash may =
      then-Respects _ _ (upsert_job-Respects _ _ _ _ may)
        (then-Respects _ _ (execute-Respects _ (λ now t. same t.jobs)) (insert_event-Respects _ _))

  pub is_terminal-Respects : (uid : Bytes) → Respects (is_terminal x fates uid)
  unfolding is_terminal
  is_terminal-Respects uid = ask-Respects _

  pub attempt_count-Respects : (uid : Bytes) → Respects (attempt_count x fates uid)
  unfolding attempt_count
  attempt_count-Respects uid = ask-Respects _

  pub set_parameter-Respects : (name value : String) → Respects (set_parameter x fates name value)
  unfolding set_parameter
  set_parameter-Respects name value = execute-Respects _ (λ now t. same t.jobs)
