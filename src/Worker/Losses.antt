-- ===== src/Worker/Losses.antt =====
-- src/main.rs and src/db.rs: what the ledger never loses, whatever becomes of the worker's calls.
use oracle_qa.Prelude.{
  ℕ, ◌≡◌, ◌⊎◌, inl, inr, refl, ap, sym, subst, true, String, List, [], ◌∷◌, Option, none, some,
}
use oracle_qa.Types.{EvaluationJob}
use oracle_qa.State.{OracleConfig}
use oracle_qa.External.{Deps}
use oracle_qa.Pipeline.Run.{PipelineOutcome}
use oracle_qa.Ledger.Tables.{find_row}
use oracle_qa.Ledger.Kept.{
  RowIsKept, IsFrom, RowsKept, RowIsKept-refl, RowIsKept-trans, upsert_row-RowsKept, RowIsKept-map,
}
use oracle_qa.Ledger.Calls.{Db, Fate}
use oracle_qa.Worker.Process.{Worker, Round, admit, process}
use oracle_qa.Worker.Frames.{noted, Reports, process-Carried}
use oracle_qa.Worker.Turns.{process_each}

module _ (uid : String) (x : Deps) (config : OracleConfig) (fates : ℕ → Fate) where
  -- In one of the turns, a job of the uid was admitted, and its run ended in time with an outcome that
  -- `O` holds of.
  abbrev pub Told : (PipelineOutcome → Type 0) → List (Round × EvaluationJob) → Worker → Type 0
  Told O [] w = ⊥
  Told O ((round, job) ∷ turns) w =
      ((x.hex job.payment_uid ≡ uid)
        × ((admit x config fates job (noted x config fates job round w)).0 ≡ true)
        × (o : PipelineOutcome) × Reports x config fates job round w.shared o
        × O o)
      ⊎ Told O turns (process x config fates round job w)

  abbrev pub Signed : List (Round × EvaluationJob) → Worker → String → Type 0
  Signed turns w a = Told (λ o. o.signature ≡ some a) turns w

  abbrev pub Hashed : List (Round × EvaluationJob) → Worker → String → Type 0
  Hashed turns w a = Told (λ o. x.hex o.resolution_hash ≡ a) turns w

  -- From `w`, whose ledger is `s`, the turns have led to `v`: it still has its ledger, and the row of the
  -- uid is kept, with a signature and a hash that are new only where a run of the turns told them.
  abbrev pub KeepsRow : List (Round × EvaluationJob) → Worker → Db → Worker → Type 0
  KeepsRow turns w s v =
      (t : Db) × (v.db ≡ some t)
      × RowIsKept (Signed turns w) (Hashed turns w) (find_row uid s.tables.jobs)
          (find_row uid t.tables.jobs)

  told_signature :
      (turns : List (Round × EvaluationJob)) (w : Worker) (o : PipelineOutcome)
      (sig : Option String)
      → o.signature ≡ sig
      → ((a : String) → o.signature ≡ some a → Signed turns w a)
      → IsFrom (Signed turns w) sig
  told_signature turns w o none e h = tt
  told_signature turns w o (some a) e h = h a e

  pub process-KeepsRow :
      (round : Round) (job : EvaluationJob) (w : Worker) (s : Db)
      → KeepsRow
          ((round, job) ∷ [])
          (record w { db = some s })
          s
          (process x config fates round job (record w { db = some s }))
  process-KeepsRow round job w s =
      let turns = (round, job) ∷ [] in
      let here : Worker = record w { db = some s } in
      let P = Signed turns here in
      let Q = Hashed turns here in
      let c =
        process-Carried x config fates job (RowsKept P Q uid)
          (λ rows. RowIsKept-refl P Q (find_row uid rows))
          (λ a b c. RowIsKept-trans P Q (find_row uid a) (find_row uid b) (find_row uid c))
          (λ sig hash. x.hex job.payment_uid ≡ uid → IsFrom P sig × IsFrom Q hash) (λ e. (tt, tt))
          (λ now status e sig hash rows may. upsert_row-RowsKept P Q uid now _ rows may) round w s
          (λ admitted o reported e. (
            told_signature turns here o o.signature refl
                (λ a signed. inl (e, admitted, o, reported, signed)),
            inl (e, admitted, o, reported, refl),
          )) in
      (c.left, c.there, c.related)

  at_head :
      (O : PipelineOutcome → Type 0) (turn : Round × EvaluationJob)
      (turns : List (Round × EvaluationJob)) (w : Worker)
      → Told O (turn ∷ []) w
      → Told O (turn ∷ turns) w
  at_head O (round, job) turns w (inl h) = inl h
  at_head O (round, job) turns w (inr h) = absurd h

  -- Whatever becomes of each call of the ledger (no connection, a statement that fails, a timeout with
  -- the statement done or not), however its runs end, and whatever jobs it is given, the worker loses
  -- no row of any job: the row stays, its number of attempts never falls, and its signature and its
  -- resolution hash stay exactly what they are, or become what a run in time of one of these turns, for
  -- an admitted job of that payment, reported. No failure, timeout or dead letter touches them.
  pub process_each-KeepsRow :
      (turns : List (Round × EvaluationJob)) (w : Worker) (s : Db)
      → KeepsRow turns
          (record w { db = some s })
          s
          (process_each x config fates turns (record w { db = some s }))
  process_each-KeepsRow [] w s = (s, refl, RowIsKept-refl _ _ (find_row uid s.tables.jobs))
  process_each-KeepsRow ((round, job) ∷ turns) w s =
      let here : Worker = record w { db = some s } in
      let after = process x config fates round job here in
      let all = (round, job) ∷ turns in
      let (t, there, kept) = process-KeepsRow round job w s in
      let same : after ≡ record after { db = some t } = ap (λ o. record after { db = o }) there in
      let (u, there2, kept2) =
        subst (λ v. KeepsRow turns v t (process_each x config fates turns v)) (sym same)
          (process_each-KeepsRow turns after t) in
      (
        u,
        there2,
        RowIsKept-trans (Signed all here) (Hashed all here) (find_row uid s.tables.jobs)
            (find_row uid t.tables.jobs) (find_row uid u.tables.jobs)
            (RowIsKept-map _ _ _ _ _ _ (λ a. at_head _ (round, job) turns here)
              (λ a. at_head _ (round, job) turns here) kept)
            (RowIsKept-map _ _ _ _ _ _ (λ a. inr) (λ a. inr) kept2),
      )
