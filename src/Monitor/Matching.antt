-- ===== src/Monitor/Matching.antt =====
-- src/chain.rs: which payments the instructions of a transaction name.
use oracle_qa.Prelude.{
  ℕ, ◌≡◌, ◌↔◌, ◌⊎◌, inl, inr, refl, ap, true, false, String, Bytes, List, [], ◌∷◌, Option, none,
  some, arith, get_elem?, Any, In, bytes_eq_iff, bytes_eq_refl, Bool, get_elem?_lt, bytes_eq,
  length, ltb, not,
}
use oracle_qa.Prelude.Text.{str_eq, eq_iff}
use oracle_qa.External.{Deps}
use oracle_qa.Monitor.Instructions.{
  UiInstruction, push_some, partially_decoded, parsed, compiled, candidate, payment_from_partial_ix,
  payment_from_compiled_ix, ◌>>=◌, ◌>>◌, none_unless, is_submit_delivery,
  collect_payment_candidates_from_instructions,
}

module _ {A : Type 0} where
  bind_some :
      {B : Type 0} (m : Option B) (f : B → Option A) (a : A)
      → (m >>= f) ≡ some a
      → (b : B) × (m ≡ some b) × (f b ≡ some a)
  bind_some none f a h = cc
  bind_some (some b) f a h = (b, refl, h)

  then_some :
      (test : Bool) (m : Option A) (a : A)
      → (none_unless test >> m) ≡ some a
      → (test ≡ true) × (m ≡ some a)
  then_some true m a h = (refl, h)
  then_some false m a h = cc

module _ (x : Deps) (account_keys : List String) (escrow pk : Bytes) where
  open x use {parse_pubkey, bs58_decode, submit_delivery, pubkey_text}

  -- The data of an instruction starts with the number of `SubmitDelivery`.
  abbrev pub Submits : String → Type 0
  Submits text = (rest : Bytes) × (bs58_decode text ≡ some (submit_delivery ∷ rest))

  -- An instruction is a `SubmitDelivery` of the escrow program whose fifth account is the payment.
  abbrev pub Names : UiInstruction → Type 0
  Names (partially_decoded program accounts text) =
      (program ≡ pubkey_text escrow)
      × Submits text
      × ((account : String) × (get_elem? accounts 4 ≡ some account)
          × (parse_pubkey account ≡ some pk))
  Names parsed = ⊥
  Names (compiled program accounts text) =
      ((key : String) × (get_elem? account_keys program ≡ some key)
        × (parse_pubkey key ≡ some escrow))
      × Submits text
      × ((i : ℕ) × (get_elem? accounts 4 ≡ some i)
          × ((account : String) × (get_elem? account_keys i ≡ some account)
              × (parse_pubkey account ≡ some pk)))

  is_submit_delivery_iff :
      (raw : Bytes)
      → (is_submit_delivery x raw ≡ true) ↔ ((rest : Bytes) × (raw ≡ submit_delivery ∷ rest))
  is_submit_delivery_iff [] = (λ h. cc, λ (rest, e). cc)
  is_submit_delivery_iff (b ∷ bs) = (λ h. (bs, ground arith), λ (rest, e). ground arith)

  candidate-Names : (ix : UiInstruction) → candidate x account_keys escrow ix ≡ some pk → Names ix
  unfolding candidate payment_from_partial_ix payment_from_compiled_ix
  candidate-Names (partially_decoded program accounts text) h =
      let (same, h1) = then_some (str_eq program (pubkey_text escrow)) _ pk h in
      let (raw, decoded, h2) = bind_some (bs58_decode text) _ pk h1 in
      let (submits, h3) = then_some (is_submit_delivery x raw) _ pk h2 in
      let (fits, h4) = then_some (not (ltb (length accounts) 5)) _ pk h3 in
      let (rest, e) = (is_submit_delivery_iff raw).0 submits in
      (
        (eq_iff program (pubkey_text escrow)).0 same,
        (rest, cc (decoded, e)),
        bind_some (get_elem? accounts 4) parse_pubkey pk h4,
      )
  candidate-Names parsed h = cc
  candidate-Names (compiled program accounts text) h =
      let (key, found, h1) = bind_some (get_elem? account_keys program) _ pk h in
      let (id, reads, h2) = bind_some (parse_pubkey key) _ pk h1 in
      let (same, h3) = then_some (bytes_eq id escrow) _ pk h2 in
      let (raw, decoded, h4) = bind_some (bs58_decode text) _ pk h3 in
      let (submits, h5) = then_some (is_submit_delivery x raw) _ pk h4 in
      let (i, at, h6) = bind_some (get_elem? accounts 4) _ pk h5 in
      let (rest, e) = (is_submit_delivery_iff raw).0 submits in
      (
        (key, found, cc (reads, (bytes_eq_iff id escrow).0 same)),
        (rest, cc (decoded, e)),
        (i, at, bind_some (get_elem? account_keys i) parse_pubkey pk h6),
      )

  Names-candidate : (ix : UiInstruction) → Names ix → candidate x account_keys escrow ix ≡ some pk
  unfolding candidate payment_from_partial_ix payment_from_compiled_ix
  Names-candidate (partially_decoded program accounts text)
        (same, (rest, decoded), (account, at, reads)) =
      rw (same, decoded, at)
        (ground (
          arith,
          eq_iff (pubkey_text escrow) (pubkey_text escrow),
          get_elem?_lt accounts 4 account at,
        ))
  Names-candidate parsed h = absurd h
  Names-candidate (compiled program accounts text)
        ((key, found, same), (rest, decoded), (i, at, (account, has, reads))) =
      rw (found, same, decoded, at, has) (ground (arith, bytes_eq_refl escrow))

  -- A transaction's instruction makes a payment a candidate exactly when it is a `SubmitDelivery` of
  -- the escrow program whose fifth account is that payment.
  pub candidate_iff :
      (ix : UiInstruction) → (candidate x account_keys escrow ix ≡ some pk) ↔ Names ix
  candidate_iff ix = (candidate-Names ix, Names-candidate ix)

  In-push_some :
      {A : Type 0} (a : A) (o : Option A) (rest : List A)
      → In a (push_some o rest)
      → (o ≡ some a) ⊎ In a rest
  In-push_some a none rest h = inr h
  In-push_some a (some b) rest (inl e) = inl (ap some e)
  In-push_some a (some b) rest (inr h) = inr h

  -- Every candidate is named by an instruction.
  pub collected :
      (ixs : List UiInstruction)
      → In pk (collect_payment_candidates_from_instructions x ixs account_keys escrow)
      → Any Names ixs
  unfolding collect_payment_candidates_from_instructions
  collected [] h = absurd h
  collected (ix ∷ ixs) h = elim (In-push_some pk (candidate x account_keys escrow ix) _ h) [
    | inl e ↦ inl (candidate-Names ix e)
    | inr k ↦ inr (collected ixs k)
  ]

  push_some-In :
      {A : Type 0} (a : A) (o : Option A) (rest : List A)
      → (o ≡ some a) ⊎ In a rest
      → In a (push_some o rest)
  push_some-In a none rest (inl e) = absurd (cc)
  push_some-In a none rest (inr h) = h
  push_some-In a (some b) rest (inl e) = inl (cc)
  push_some-In a (some b) rest (inr h) = inr h

  -- And every payment that an instruction names is a candidate.
  pub collects :
      (ixs : List UiInstruction)
      → Any Names ixs
      → In pk (collect_payment_candidates_from_instructions x ixs account_keys escrow)
  unfolding collect_payment_candidates_from_instructions
  collects [] h = absurd h
  collects (ix ∷ ixs) (inl h) =
      push_some-In pk (candidate x account_keys escrow ix) _ (inl (Names-candidate ix h))
  collects (ix ∷ ixs) (inr h) =
      push_some-In pk (candidate x account_keys escrow ix) _ (inr (collects ixs h))
