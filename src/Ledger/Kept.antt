-- ===== src/Ledger/Kept.antt =====
-- src/db.rs, the rows of the jobs: what an upsert keeps of them.
use oracle_qa.Prelude.{
  ℕ, ◌≤◌, ◌≡◌, ◌⊎◌, inl, inr, refl, sym, subst, ◌∙◌, String, List, Option, none, some, arith,
  Bool-cases,
}
use oracle_qa.Prelude.Text.{str_eq, eq_iff}
use oracle_qa.Ledger.Tables.{JobRow, coalesce, fresh_row, merge_row, upsert_row, find_row}
use oracle_qa.Ledger.Rows.{merged, find_row-upsert_row, find_row-upsert_row_other}
use oracle_qa.Ledger.Calls.{row_attempts}

-- A text stays as it was, or becomes one that `P` holds of.
abbrev pub IsKept : (String → Type 0) → Option String → Option String → Type 0
IsKept P old new = (new ≡ old) ⊎ ((a : String) × (new ≡ some a) × P a)

abbrev pub signature_of : Option JobRow → Option String
signature_of none = none
signature_of (some row) = row.settlement_signature

abbrev pub hash_of : Option JobRow → Option String
hash_of none = none
hash_of (some row) = row.resolution_hash

-- A row stays, with no fewer attempts, and its signature and its resolution hash stay what they are or
-- become such as `P` and `Q` hold of.
pub record RowIsKept (P Q : String → Type 0) (old new : Option JobRow) : Type 0 where
  pub stays : new ≡ none → old ≡ none
  pub attempts : row_attempts old ≤ row_attempts new
  pub signature : IsKept P (signature_of old) (signature_of new)
  pub hash : IsKept Q (hash_of old) (hash_of new)

IsKept-trans :
    (P : String → Type 0) (a b c : Option String) → IsKept P a b → IsKept P b c → IsKept P a c
IsKept-trans P a b c (inl h) (inl k) = inl (k ∙ h)
IsKept-trans P a b c (inr (t, h, p)) (inl k) = inr (t, k ∙ h, p)
IsKept-trans P a b c h (inr k) = inr k

IsKept-map :
    (P Q : String → Type 0) (a b : Option String)
    → ((t : String) → P t → Q t)
    → IsKept P a b
    → IsKept Q a b
IsKept-map P Q a b f (inl h) = inl h
IsKept-map P Q a b f (inr (t, h, p)) = inr (t, h, f t p)

-- `P` holds of the text, if any.
abbrev pub IsFrom : (String → Type 0) → Option String → Type 0
IsFrom P none = Unit
IsFrom P (some a) = P a

IsKept-coalesce :
    (P : String → Type 0) (new old : Option String) → IsFrom P new → IsKept P old (coalesce new old)
IsKept-coalesce P (some a) old p = inr (a, refl, p)
IsKept-coalesce P none old p = inl refl

IsKept-fresh : (P : String → Type 0) (new : Option String) → IsFrom P new → IsKept P none new
IsKept-fresh P (some a) p = inr (a, refl, p)
IsKept-fresh P none p = inl refl

module _ (P Q : String → Type 0) where
  pub RowIsKept-refl : (row : Option JobRow) → RowIsKept P Q row row
  RowIsKept-refl row = record {
    stays = λ e. e;
    attempts = omega arith;
    signature = inl refl;
    hash = inl refl;
  }

  pub RowIsKept-trans :
      (a b c : Option JobRow) → RowIsKept P Q a b → RowIsKept P Q b c → RowIsKept P Q a c
  RowIsKept-trans a b c h k = record {
    stays = λ e. h.stays (k.stays e);
    attempts = omega (arith, h.attempts, k.attempts);
    signature = IsKept-trans P _ _ _ h.signature k.signature;
    hash = IsKept-trans Q _ _ _ h.hash k.hash;
  }

  merged-RowIsKept :
      (now : ℕ) (row : JobRow) (old : Option JobRow)
      → IsFrom P row.settlement_signature
      → IsFrom Q row.resolution_hash
      → RowIsKept P Q old (some (merged now row old))
  unfolding merge_row fresh_row
  merged-RowIsKept now row none p q = record {
    stays = λ e. refl;
    attempts = omega arith;
    signature = IsKept-fresh P _ p;
    hash = IsKept-fresh Q _ q;
  }
  merged-RowIsKept now row (some old) p q = record {
    stays = λ e. cc;
    attempts = omega arith;
    signature = IsKept-coalesce P _ _ p;
    hash = IsKept-coalesce Q _ _ q;
  }

  module _ (uid : String) where
    abbrev pub RowsKept : List JobRow → List JobRow → Type 0
    RowsKept before after = RowIsKept P Q (find_row uid before) (find_row uid after)

    pub upsert_row-RowsKept :
        (now : ℕ) (row : JobRow) (rows : List JobRow)
        → (row.payment_uid ≡ uid → IsFrom P row.settlement_signature × IsFrom Q row.resolution_hash)
        → RowsKept rows (upsert_row now row rows)
    upsert_row-RowsKept now row rows may = elim (Bool-cases (str_eq row.payment_uid uid)) [
      | inl e ↦
          let same : row.payment_uid ≡ uid = (eq_iff row.payment_uid uid).0 e in
          let (p, q) = may same in
          subst (λ u. RowIsKept P Q (find_row u rows) (find_row u (upsert_row now row rows))) same
            (subst (RowIsKept P Q (find_row row.payment_uid rows))
              (sym (find_row-upsert_row now row rows))
              (merged-RowIsKept now row (find_row row.payment_uid rows) p q))
      | inr e ↦
          subst (RowIsKept P Q (find_row uid rows))
            (sym (find_row-upsert_row_other now row uid rows e))
            (RowIsKept-refl (find_row uid rows))
    ]

pub RowIsKept-map :
    (P P2 Q Q2 : String → Type 0) (a b : Option JobRow)
    → ((t : String) → P t → P2 t)
    → ((t : String) → Q t → Q2 t)
    → RowIsKept P Q a b
    → RowIsKept P2 Q2 a b
RowIsKept-map P P2 Q Q2 a b f g h = record {
  stays = h.stays;
  attempts = h.attempts;
  signature = IsKept-map P P2 _ _ f h.signature;
  hash = IsKept-map Q Q2 _ _ g h.hash;
}
