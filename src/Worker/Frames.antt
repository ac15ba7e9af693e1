-- ===== src/Worker/Frames.antt =====
-- src/main.rs: what one turn of the worker does to the rows of the jobs, whatever becomes of its calls.
use oracle_qa.Prelude.{
  ℕ, ◌≡◌, inl, inr, refl, sym, subst, ◌∙◌, true, String, List, Option, none, some, ok, leb,
  Bool-cases, Option-cases, Result-cases,
}
use oracle_qa.Error.{error_text}
use oracle_qa.Types.{EvaluationJob, param_last_seen_slot}
use oracle_qa.State.{OracleConfig}
use oracle_qa.External.{Deps}
use oracle_qa.Pipeline.Run.{PipelineOutcome, run_pipeline}
use oracle_qa.Monitor.Backfill.{persist_slot_watermark}
use oracle_qa.Ledger.Tables.{Status, JobRow, upsert_row}
use oracle_qa.Ledger.Calls.{
  Db, Call, Fate, row_of, record_detected, record_queued, record_started, record_failed,
  record_dead_letter, record_settled, is_terminal, set_parameter,
}
use oracle_qa.Ledger.Frames.{
  Respects, record_detected-Respects, record_queued-Respects, record_started-Respects,
  record_failed-Respects, record_dead_letter-Respects, record_settled-Respects,
  is_terminal-Respects, attempt_count-Respects, set_parameter-Respects,
}
use oracle_qa.Pipeline.Exec.{Shared}
use oracle_qa.Worker.Transactions.{admit_shared, start_shared}
use oracle_qa.Worker.Process.{
  Worker, Round, with_ledger, admit, started_count, start, store_watermark, succeed, give_up,
  run_job, work, process,
}

module _ (x : Deps) (config : OracleConfig) (fates : ℕ → Fate) (job : EvaluationJob) where
  -- The worker as it goes to the ledger in a turn.
  abbrev pub noted : Round → Worker → Worker
  noted round w = record w { health = record w.health { queue_depth = round.waiting } }

  -- A run of the turn that ends in time with an outcome.
  abbrev pub Reports : Round → Shared → PipelineOutcome → Type 0
  Reports round shared o =
      (round.cut ≡ none) × ((run_pipeline x config round.env job shared).0 ≡ ok o)

module _ (x : Deps) (config : OracleConfig) (fates : ℕ → Fate) (job : EvaluationJob)
    (R : List JobRow → List JobRow → Type 0) (same : (rows : List JobRow) → R rows rows)
    (chain : (a b c : List JobRow) → R a b → R b c → R a c)
    (MayWrite : Option String → Option String → Type 0) (blank : MayWrite none none)
    (upserts : (now : ℕ) (status : Status) (e sig hash : Option String) (rows : List JobRow)
      → MayWrite sig hash
      → R rows (upsert_row now (row_of x fates job status e sig hash) rows)) where
  abbrev Fits : {A : Type 0} → Call A → Type 0
  Fits = Respects x fates job R same chain MayWrite blank upserts

  -- The worker has a ledger, with rows that are related to those of `s`.
  pub record Carried (s : Db) (w : Worker) : Type 0 where
    pub left : Db
    pub there : w.db ≡ some left
    pub related : R s.tables.jobs left.tables.jobs

  carry :
      (f : Worker → Worker) (s : Db) (w : Worker)
      → ((t : Db) → R s.tables.jobs t.tables.jobs → Carried s (f (record w { db = some t })))
      → Carried s w
      → Carried s (f w)
  carry f s w step c =
      subst (λ o. Carried s (f (record w { db = o }))) (sym c.there) (step c.left c.related)

  with_ledger-Carried :
      {A : Type 0} (call : Call A)
      → Fits call
      → (s : Db) (w : Worker) → Carried s w
      → Carried s (with_ledger x config fates call w)
  with_ledger-Carried call fits s w = carry (with_ledger x config fates call) s w (λ t h. record {
    left = (call t).1;
    there = refl;
    related = chain s.tables.jobs t.tables.jobs (call t).1.tables.jobs h (fits t);
  })

  admit-Carried : (s : Db) (w : Worker) → Carried s w → Carried s (admit x config fates job w).1
  unfolding admit
  admit-Carried s w =
      carry (λ v. (admit x config fates job v).1) s w
        (λ t h. record {
          left = (is_terminal x fates job.payment_uid t).1;
          there = refl;
          related = chain s.tables.jobs t.tables.jobs _ h (
              is_terminal-Respects x fates job R same chain MayWrite blank upserts job.payment_uid
                t);
        })

  started_count-related :
      (t : Db) → R t.tables.jobs (started_count x config fates job t).1.tables.jobs
  started_count-related t =
      let begun = record_started-Respects x fates job R same chain MayWrite blank upserts t in
      elim (Result-cases (record_started x fates job t).0) [
        | inl (u, e) ↦
            rw (e, started_count)
              (chain t.tables.jobs (record_started x fates job t).1.tables.jobs _ begun (
                attempt_count-Respects x fates job R same chain MayWrite blank upserts
                  job.payment_uid (record_started x fates job t).1))
        | inr (m, e) ↦ rw (e, started_count) begun
      ]

  start-Carried : (s : Db) (w : Worker) → Carried s w → Carried s (start x config fates job w).1
  unfolding start
  start-Carried s w =
      carry (λ v. (start x config fates job v).1) s w
        (λ t h. record {
          left = (started_count x config fates job t).1;
          there = refl;
          related = chain s.tables.jobs t.tables.jobs _ h (started_count-related t);
        })

  store_watermark-Carried :
      (s : Db) (w : Worker) → Carried s w → Carried s (store_watermark x config fates w)
  store_watermark-Carried s w c = elim (Option-cases (persist_slot_watermark w.health)) [
    | inl e ↦ rw (e, store_watermark) c
    | inr (slot, e) ↦
        rw (e, store_watermark)
          (with_ledger-Carried (set_parameter x fates param_last_seen_slot slot)
            (set_parameter-Respects x fates job R same chain MayWrite blank upserts
              param_last_seen_slot slot)
            s w c)
  ]

  -- Only the ledger counts.
  retell : (s : Db) (w v : Worker) → v.db ≡ w.db → Carried s w → Carried s v
  retell s w v e c = record { left = c.left; there = e ∙ c.there; related = c.related }

  succeed-Carried :
      (now : String) (o : PipelineOutcome) (s : Db) (w : Worker)
      → MayWrite o.signature (some (x.hex o.resolution_hash))
      → Carried s w
      → Carried s (succeed x config fates job now o w)
  unfolding succeed
  succeed-Carried now o s w may c = retell s _ _ refl (
      store_watermark-Carried s _ (
        with_ledger-Carried (record_settled x fates job o.result o.signature o.resolution_hash)
          (record_settled-Respects x fates job R same chain MayWrite blank upserts o.result
            o.signature o.resolution_hash may)
          s w c))

  give_up-Carried :
      (n : ℕ) (text : String) (s : Db) (w : Worker)
      → Carried s w
      → Carried s (give_up x config fates job n text w)
  unfolding give_up
  give_up-Carried n text s w c = elim (Bool-cases (leb config.dead_letter_max_attempts n)) [
    | inl e ↦ rw e (
        retell s _ _ refl (
          with_ledger-Carried (record_dead_letter x fates job text)
            (record_dead_letter-Respects x fates job R same chain MayWrite blank upserts text) s w
            c))
    | inr e ↦ rw e (
        retell s _ _ refl (
          with_ledger-Carried (record_failed x fates job text)
            (record_failed-Respects x fates job R same chain MayWrite blank upserts text) s w c))
  ]

  -- What a run of the turn that ends in time says may be written.
  abbrev MayReport : Round → Shared → Type 0
  MayReport round shared =
      (o : PipelineOutcome)
      → Reports x config fates job round shared o
      → MayWrite o.signature (some (x.hex o.resolution_hash))

  run_job-Carried :
      (round : Round) (n : ℕ) (s : Db) (w : Worker)
      → MayReport round w.shared
      → Carried s w
      → Carried s (run_job x config fates round job n w)
  unfolding run_job
  run_job-Carried round n s w may c = elim (Option-cases round.cut) [
    | inr (left, e) ↦
        rw (e, run_job)
          (give_up-Carried n "pipeline timeout" s (record w { shared = left })
            (retell s w _ refl c))
    | inl e ↦ elim (Result-cases (run_pipeline x config round.env job w.shared).0) [
      | inl (o, r) ↦
          rw (e, run_job)
            (rw r (succeed-Carried round.now o s _ (may o (e, r)) (retell s w _ refl c)))
      | inr (m, r) ↦
          rw (e, run_job) (rw r (give_up-Carried n (error_text m) s _ (retell s w _ refl c)))
    ]
  ]

  work-Carried :
      (round : Round) (s : Db) (w : Worker)
      → MayReport round w.shared
      → Carried s w
      → Carried s (work x config fates round job w)
  work-Carried round s w may c =
      let queued =
        with_ledger x config fates (record_queued x fates job)
          (with_ledger x config fates (record_detected x fates job) w) in
      run_job-Carried round _ s _
        (subst (MayReport round) (sym (start_shared x config fates job queued)) may)
        (start-Carried s _ (
          with_ledger-Carried (record_queued x fates job)
            (record_queued-Respects x fates job R same chain MayWrite blank upserts) s _
            (with_ledger-Carried (record_detected x fates job)
              (record_detected-Respects x fates job R same chain MayWrite blank upserts) s w c)))

  -- One turn keeps the ledger and leaves related rows, where what its run says may be written.
  pub process-Carried :
      (round : Round) (w : Worker) (s : Db)
      → ((admit x config fates job (noted x config fates job round (record w { db = some s }))).0
            ≡ true
          → MayReport round w.shared)
      → Carried s (process x config fates round job (record w { db = some s }))
  unfolding process
  process-Carried round w s may =
      let before = noted x config fates job round (record w { db = some s }) in
      let start_here : Carried s before = record {
        left = s;
        there = refl;
        related = same s.tables.jobs;
      } in
      let admitted = admit-Carried s before start_here in
      elim (Bool-cases (admit x config fates job before).0) [
        | inl e ↦ rw e (
            work-Carried round s _
              (subst (MayReport round) (sym (admit_shared x config fates job before)) (may e))
              admitted)
        | inr e ↦ rw e admitted
      ]
