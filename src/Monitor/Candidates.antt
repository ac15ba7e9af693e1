-- ===== src/Monitor/Candidates.antt =====
-- src/chain.rs: the payments that a transaction names are kept by the sort and the removal of
-- repeated keys.
use oracle_qa.Prelude.{
  ◌≡◌, inl, inr, String, Bytes, List, [], ◌∷◌, Option, Any, In, Any-append, bytes_eq, Bool-cases,
}
use oracle_qa.External.{Deps}
use oracle_qa.Monitor.Instructions.{UiInstruction, collect_payment_candidates_from_instructions}
use oracle_qa.Monitor.Matching.{Names, collected}
use oracle_qa.Monitor.Delivery.{
  TransactionMeta, text_leb, insert_key, sort_by_key, dedup_after, dedup, group_candidates,
  inner_instructions_of, candidates,
}

module _ (x : Deps) (pk : Bytes) where
  insert_key-In : (p : Bytes) (l : List Bytes) → In pk (insert_key x p l) → In pk (p ∷ l)
  unfolding insert_key
  insert_key-In p [] h = h
  insert_key-In p (q ∷ qs) h = elim (Bool-cases (text_leb (x.pubkey_text p) (x.pubkey_text q))) [
    | inl e ↦ (rw e at h)
    | inr e ↦ elim (rw e at h) [
      | inl same ↦ inr (inl same)
      | inr k ↦ elim (insert_key-In p qs k) [ inl same ↦ inl same | inr m ↦ inr (inr m) ]
    ]
  ]

  sort_by_key-In : (l : List Bytes) → In pk (sort_by_key x l) → In pk l
  unfolding sort_by_key
  sort_by_key-In [] h = h
  sort_by_key-In (p ∷ ps) h = elim (insert_key-In p (sort_by_key x ps) h) [
    | inl same ↦ inl same
    | inr k ↦ inr (sort_by_key-In ps k)
  ]

  dedup_after-In : (p : Bytes) (l : List Bytes) → In pk (dedup_after x p l) → In pk l
  unfolding dedup_after
  dedup_after-In p [] h = h
  dedup_after-In p (q ∷ qs) h = elim (Bool-cases (bytes_eq p q)) [
    | inl e ↦ inr (dedup_after-In q qs (rw e at h))
    | inr e ↦ elim (rw e at h) [ inl same ↦ inl same | inr k ↦ inr (dedup_after-In q qs k) ]
  ]

  dedup-In : (l : List Bytes) → In pk (dedup x l) → In pk l
  unfolding dedup
  dedup-In [] h = h
  dedup-In (p ∷ ps) (inl same) = inl same
  dedup-In (p ∷ ps) (inr k) = inr (dedup_after-In p ps k)

  group_candidates-Names :
      (gs : List (List UiInstruction)) (keys : List String) (escrow : Bytes)
      → In pk (group_candidates x gs keys escrow)
      → Any (Any (Names x keys escrow pk)) gs
  unfolding group_candidates
  group_candidates-Names [] keys escrow h = absurd h
  group_candidates-Names (g ∷ gs) keys escrow h =
      elim (Any-append (λ b. b ≡ pk) (collect_payment_candidates_from_instructions x g keys escrow)
        _ h) [
          | inl k ↦ inl (collected x keys escrow pk g k)
          | inr k ↦ inr (group_candidates-Names gs keys escrow k)
        ]

  pub candidates-Names :
      (ixs : List UiInstruction) (keys : List String) (meta : Option TransactionMeta)
      (escrow : Bytes)
      → In pk (candidates x ixs keys meta escrow)
      → Any (Any (Names x keys escrow pk)) (ixs ∷ inner_instructions_of x meta)
  unfolding candidates group_candidates
  candidates-Names ixs keys meta escrow h =
      group_candidates-Names (ixs ∷ inner_instructions_of x meta) keys escrow
        (sort_by_key-In _ (dedup-In _ h))
