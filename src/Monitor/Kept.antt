-- ===== src/Monitor/Kept.antt =====
-- src/chain.rs: no payment that a transaction names is lost by the sort and the removal of repeated
-- keys, or by the scan.
use oracle_qa.Prelude.{
  ◌≡◌, ◌∙◌, ◌⊎◌, inl, inr, String, Bytes, List, [], ◌∷◌, Option, Any, In, append-Any, bytes_eq→eq,
  bytes_eq, Bool-cases,
}
use oracle_qa.External.{Deps}
use oracle_qa.Monitor.Instructions.{UiInstruction, collect_payment_candidates_from_instructions}
use oracle_qa.Monitor.Matching.{Names, collects}
use oracle_qa.Monitor.Delivery.{
  TransactionMeta, text_leb, insert_key, sort_by_key, dedup_after, dedup, group_candidates,
  inner_instructions_of, candidates,
}

module _ (x : Deps) (pk : Bytes) where
  insert_key-keeps : (p : Bytes) (l : List Bytes) → In pk (p ∷ l) → In pk (insert_key x p l)
  unfolding insert_key
  insert_key-keeps p [] h = h
  insert_key-keeps p (q ∷ qs) h = elim (Bool-cases (text_leb (x.pubkey_text p) (x.pubkey_text q))) [
    | inl e ↦ rw (e, insert_key) h
    | inr e ↦
        rw (e, insert_key)
          (elim h [
            | inl same ↦ inr (insert_key-keeps p qs (inl same))
            | inr (inl same) ↦ inl same
            | inr (inr k) ↦ inr (insert_key-keeps p qs (inr k))
          ])
  ]

  sort_by_key-keeps : (l : List Bytes) → In pk l → In pk (sort_by_key x l)
  unfolding sort_by_key
  sort_by_key-keeps [] h = h
  sort_by_key-keeps (p ∷ ps) (inl same) = insert_key-keeps p _ (inl same)
  sort_by_key-keeps (p ∷ ps) (inr k) = insert_key-keeps p _ (inr (sort_by_key-keeps ps k))

  dedup_after-keeps :
      (p : Bytes) (l : List Bytes) → (p ≡ pk) ⊎ In pk l → (p ≡ pk) ⊎ In pk (dedup_after x p l)
  unfolding dedup_after
  dedup_after-keeps p l (inl same) = inl same
  dedup_after-keeps p [] (inr h) = inr h
  dedup_after-keeps p (q ∷ qs) (inr h) = elim (Bool-cases (bytes_eq p q)) [
    | inl e ↦
        rw (e, dedup_after)
          (let one : p ≡ q = bytes_eq→eq p q e in
            elim (dedup_after-keeps q qs h) [ inl same ↦ inl (one ∙ same) | inr k ↦ inr k ])
    | inr e ↦ rw (e, dedup_after) (inr (dedup_after-keeps q qs h))
  ]

  dedup-keeps : (l : List Bytes) → In pk l → In pk (dedup x l)
  unfolding dedup
  dedup-keeps [] h = h
  dedup-keeps (p ∷ ps) h = dedup_after-keeps p ps h

  groups_kept :
      (gs : List (List UiInstruction)) (keys : List String) (escrow : Bytes)
      → Any (Any (Names x keys escrow pk)) gs
      → In pk (group_candidates x gs keys escrow)
  unfolding group_candidates
  groups_kept [] keys escrow h = absurd h
  groups_kept (g ∷ gs) keys escrow (inl h) =
      append-Any (λ b. b ≡ pk) _ _ (inl (collects x keys escrow pk g h))
  groups_kept (g ∷ gs) keys escrow (inr h) =
      append-Any (λ b. b ≡ pk) (collect_payment_candidates_from_instructions x g keys escrow) _
        (inr (groups_kept gs keys escrow h))

  pub Names-candidates :
      (ixs : List UiInstruction) (keys : List String) (meta : Option TransactionMeta)
      (escrow : Bytes)
      → Any (Any (Names x keys escrow pk)) (ixs ∷ inner_instructions_of x meta)
      → In pk (candidates x ixs keys meta escrow)
  unfolding candidates group_candidates
  Names-candidates ixs keys meta escrow h =
      dedup-keeps _
        (sort_by_key-keeps _ (groups_kept (ixs ∷ inner_instructions_of x meta) keys escrow h))
