-- ===== src/Pipeline/Exec.antt =====
-- The actions of a pipeline run: they may fail, and what they did before a failure stays done.
use oracle_qa.Prelude.{
  ℕ, Bool, if◌then◌else◌, ◌≡◌, refl, ap, sym, true, false, List, Result, ok, err,
}
use oracle_qa.Error.{OracleError}
use oracle_qa.State.{OracleStats}
use oracle_qa.Settler.Confirm.{ConfirmOracle}

-- What the run shares with the rest of the process and with the chain: the counters, the requests
-- sent to registries so far, and the transactions handed over.
pub record Shared : Type 0 where
  pub stats : OracleStats
  pub requests : ℕ
  pub submitted : List ConfirmOracle

abbrev pub Exec : Type 0 → Type 0
Exec A = Shared → Result OracleError A × Shared

module _ {A : Type 0} where
  abbrev pub pure : A → Exec A
  pure a s = (ok a, s)

  abbrev pub raise : OracleError → Exec A
  raise e s = (err e, s)

  abbrev pub lift : Result OracleError A → Exec A
  lift r s = (r, s)

-- `if !test { return Err(e) }`.
abbrev pub unless : Bool → OracleError → Exec (Unit {0})
unless test e = if test then pure tt else raise e

module _ {A B : Type 0} where
  abbrev continue : Result OracleError A → (A → Exec B) → Exec B
  continue (ok a) f s = f a s
  continue (err e) f s = (err e, s)

  infixl 5 ◌>>=◌ ◌>>◌
  unfoldable pub ◌>>=◌ : Exec A → (A → Exec B) → Exec B
  ◌>>=◌ m f s = let (r, t) = m s in continue r f t

  abbrev pub ◌>>◌ : Exec A → Exec B → Exec B
  m >> n = m >>= λ _. n

  -- What holds after a block follows from what holds after its first action.
  pub bind_rule {ℓ} :
      (m : Exec A) (f : A → Exec B) (s : Shared) (P : Result OracleError B × Shared → Type ℓ)
      → ((e : OracleError) (t : Shared) → m s ≡ (err e, t) → P (err e, t))
      → ((a : A) (t : Shared) → m s ≡ (ok a, t) → P (f a t))
      → P ((m >>= f) s)
  unfolding ◌>>=◌
  bind_rule m f s P failed went = go (m s) refl
    where
      go : (out : Result OracleError A × Shared) → m s ≡ out → P (continue out.0 f out.1)
      go (ok a, t) e = went a t e
      go (err x, t) e = failed x t e

-- What an action without effects tells: its result, and that the state is as it was.
pub lift_facts :
    {A : Type 0} (r q : Result OracleError A) (s t : Shared) → lift r s ≡ (q, t) → (r ≡ q) × (t ≡ s)
lift_facts r q s t e = (ap (λ o. o.0) e, ap (λ o. o.1) (sym e))

pub unless_facts :
    (b : Bool) (e : OracleError) (r : Result OracleError (Unit {0})) (s t : Shared)
    → unless b e s ≡ (r, t)
    → (t ≡ s) × ((u : Unit {0}) → r ≡ ok u → b ≡ true)
unless_facts true e r s t k = (ap (λ o. o.1) (sym k), λ u h. refl)
unless_facts false e r s t k = (ap (λ o. o.1) (sym k), λ u h. cc (h, k))
