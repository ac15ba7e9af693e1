-- ===== src/Ledger/Rows.antt =====
-- src/db.rs: what the upsert of a job makes of its row and of the others.
use oracle_qa.Prelude.{
  ℕ, ◌≡◌, inl, inr, refl, true, false, String, List, [], ◌∷◌, Option, none, some, arith, Bool-cases,
}
use oracle_qa.Prelude.Text.{str_eq, eq_iff}
use oracle_qa.Ledger.Tables.{JobRow, fresh_row, merge_row, upsert_row, find_row}

-- The row that an upsert leaves for its job.
abbrev pub merged : ℕ → JobRow → Option JobRow → JobRow
merged now row none = fresh_row now row
merged now row (some old) = merge_row now row old

str_eq_refl : (s : String) → str_eq s s ≡ true
str_eq_refl s = (eq_iff s s).1 refl

-- After an upsert, the job's row is found: the new row, or the old one with what the statement
-- keeps of it.
pub find_row-upsert_row :
    (now : ℕ) (row : JobRow) (rows : List JobRow)
    → find_row row.payment_uid (upsert_row now row rows)
      ≡ some (merged now row (find_row row.payment_uid rows))
unfolding find_row upsert_row fresh_row merge_row
find_row-upsert_row now row [] = rw (str_eq_refl row.payment_uid) refl
find_row-upsert_row now row (old ∷ rows) =
    elim (Bool-cases (str_eq old.payment_uid row.payment_uid)) [
      | inl e ↦ rw e (rw (str_eq_refl row.payment_uid) refl)
      | inr e ↦ rw e (rw e (find_row-upsert_row now row rows))
    ]

pub find_row-upsert_row_other :
    (now : ℕ) (row : JobRow) (uid : String) (rows : List JobRow)
    → str_eq row.payment_uid uid ≡ false
    → find_row uid (upsert_row now row rows) ≡ find_row uid rows
unfolding find_row upsert_row fresh_row merge_row
find_row-upsert_row_other now row uid [] h = ground arith
find_row-upsert_row_other now row uid (old ∷ rows) h =
    elim (Bool-cases (str_eq old.payment_uid row.payment_uid)) [
      | inl e ↦
          (let one : old.payment_uid ≡ row.payment_uid =
              (eq_iff old.payment_uid row.payment_uid).0 e in
            rw e (rw one (rw h refl)))
      | inr e ↦ rw e (ground (arith, find_row-upsert_row_other now row uid rows h))
    ]
