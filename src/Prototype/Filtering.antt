-- ===== src/Prototype/Filtering.antt =====
-- Which transactions a filter keeps.
use reth_proofs.Prelude.{
  ℕ, suc, ◌≡◌, ◌↔◌, refl, Bool, true, List, [], ◌∷◌, ◌⊎◌, inl, inr, Bool-cases,
}
use reth_proofs.Outcome.{ok}
use reth_proofs.Prototype.{full_txs, filter_from, filter_block_txs_in_place}

module _ {Tx : Type 0} (predicate : ℕ → Tx → Bool) where
  -- The list has the item somewhere.
  abbrev pub Occurs : Tx → List Tx → Type 0
  Occurs tx [] = ⊥
  Occurs tx (t ∷ txs) = (tx ≡ t) ⊎ Occurs tx txs

  -- The item stands at an index, counted from `i`, at which the predicate holds of it.
  abbrev pub Selected : ℕ → Tx → List Tx → Type 0
  Selected i tx [] = ⊥
  Selected i tx (t ∷ txs) = ((tx ≡ t) × (predicate i t ≡ true)) ⊎ Selected (suc i) tx txs

  -- The items of the first list, in the order that they have in the second.
  pub data IsSublist : List Tx → List Tx → Type 0 where
    sub_nil : IsSublist [] []
    sub_keep : (t : Tx) {xs ys : List Tx} → IsSublist xs ys → IsSublist (t ∷ xs) (t ∷ ys)
    sub_skip : (t : Tx) {xs ys : List Tx} → IsSublist xs ys → IsSublist xs (t ∷ ys)

  filter_from-IsSublist : (i : ℕ) (txs : List Tx) → IsSublist (filter_from predicate i txs) txs
  unfolding filter_from
  filter_from-IsSublist i [] = sub_nil
  filter_from-IsSublist i (t ∷ txs) =
      let rest = filter_from-IsSublist (suc i) txs in
      elim (Bool-cases (predicate i t)) [
        | inl kept ↦ rw kept (sub_keep t rest)
        | inr dropped ↦ rw dropped (sub_skip t rest)
      ]

  filter_from_iff :
      (i : ℕ) (tx : Tx) (txs : List Tx)
      → Occurs tx (filter_from predicate i txs) ↔ Selected i tx txs
  unfolding filter_from
  filter_from_iff i tx [] = (λ h. h, λ h. h)
  filter_from_iff i tx (t ∷ txs) =
      let rest = filter_from_iff (suc i) tx txs in
      elim (Bool-cases (predicate i t)) [
        | inl kept ↦ rw kept (
          λ h. elim h [ inl same ↦ inl (same, refl) | inr more ↦ inr (rest.0 more) ],
          λ h. elim h [ inl here ↦ inl here.0 | inr more ↦ inr (rest.1 more) ],
        )
        | inr dropped ↦
            rw dropped
              (λ h. inr (rest.0 h), λ h. elim h [ inl here ↦ cc here.1 | inr more ↦ rest.1 more ])
      ]

  -- A block with its transactions in full is left with those for which the predicate holds at their
  -- index, in their order.
  pub filter_block_txs_in_place_lem :
      (txs : List Tx)
      → (kept : List Tx) × (filter_block_txs_in_place predicate (full_txs txs) ≡ ok (full_txs kept))
        × IsSublist kept txs
        × ((tx : Tx) → Occurs tx kept ↔ Selected 0 tx txs)
  unfolding filter_block_txs_in_place
  filter_block_txs_in_place_lem txs = (
    filter_from predicate 0 txs,
    refl,
    filter_from-IsSublist 0 txs,
    λ tx. filter_from_iff 0 tx txs,
  )
