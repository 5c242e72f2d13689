-- ===== src/State/Update/Sorting.antt =====
-- What sorting a map by its keys does to its lookups, its keys and its order.
use reth_proofs.Prelude.{
  ℕ, ◌≡◌, refl, ◌∙◌, none, some, [], ◌∷◌, arith, ◌==◌, leb, ◌<◌, sym, inl, inr, Bool-cases,
  if◌then◌else◌,
}
use reth_proofs.Table.{Table, lookup, IsKeyed}
use reth_proofs.Table.Ordered.{IsAbove, IsOrdered, IsSame, IsAbove-trans, IsOrdered-unique}
use reth_proofs.State.Update.{sort_insert, sorted_by_key}

module _ {ℓ} {V : Type ℓ} where
  lookup-sort_insert :
      (k j : ℕ) (v : V) (m : Table V)
      → lookup j (sort_insert k v m) ≡ (if k == j then some v else lookup j m)
  unfolding lookup sort_insert
  lookup-sort_insert k j v [] = refl
  lookup-sort_insert k j v ((i, w) ∷ m) = ground (arith, lookup-sort_insert k j v m)

  pub lookup-sorted_by_key : (j : ℕ) (m : Table V) → lookup j (sorted_by_key m) ≡ lookup j m
  unfolding lookup sorted_by_key
  lookup-sorted_by_key j [] = refl
  lookup-sorted_by_key j ((k, v) ∷ m) =
      ground (arith, lookup-sort_insert k j v (sorted_by_key m), lookup-sorted_by_key j m)

  sort_insert-IsKeyed :
      (k : ℕ) (v : V) (m : Table V) → lookup k m ≡ none → IsKeyed m → IsKeyed (sort_insert k v m)
  unfolding lookup sort_insert
  sort_insert-IsKeyed k v [] new d = (refl, tt)
  sort_insert-IsKeyed k v ((i, w) ∷ m) new d =
      ground (arith, sort_insert-IsKeyed k v m, lookup-sort_insert k i v m)

  pub sorted_by_key-IsKeyed : (m : Table V) → IsKeyed m → IsKeyed (sorted_by_key m)
  unfolding sorted_by_key
  sorted_by_key-IsKeyed [] d = tt
  sorted_by_key-IsKeyed ((k, v) ∷ m) d =
      sort_insert-IsKeyed k v (sorted_by_key m) (lookup-sorted_by_key k m ∙ d.0)
        (sorted_by_key-IsKeyed m d.1)

  sort_insert-IsAbove :
      (j k : ℕ) (v : V) (m : Table V) → j < k → IsAbove j m → IsAbove j (sort_insert k v m)
  unfolding sort_insert
  sort_insert-IsAbove j k v [] lt above = (lt, tt)
  sort_insert-IsAbove j k v ((i, w) ∷ m) lt (here, above) = elim (Bool-cases (leb k i)) [
    | inl le ↦ rw le (lt, (here, above))
    | inr gt ↦ rw gt (here, sort_insert-IsAbove j k v m lt above)
  ]

  sort_insert-IsOrdered :
      (k : ℕ) (v : V) (m : Table V)
      → lookup k m ≡ none
      → IsOrdered m
      → IsOrdered (sort_insert k v m)
  unfolding lookup sort_insert
  sort_insert-IsOrdered k v [] new ordered = (tt, tt)
  sort_insert-IsOrdered k v ((i, w) ∷ m) new (above, ordered) = elim (Bool-cases (leb k i)) [
    | inl le ↦
        let lt : k < i = ground (arith, le, new) in
        rw le ((lt, IsAbove-trans k i m lt above), (above, ordered))
    | inr gt ↦
        let lt : i < k = ground (arith, gt) in
        let new_rest : lookup k m ≡ none = ground (arith, lt, new) in
        rw gt (sort_insert-IsAbove i k v m lt above, sort_insert-IsOrdered k v m new_rest ordered)
  ]

  sorted_by_key-IsOrdered : (m : Table V) → IsKeyed m → IsOrdered (sorted_by_key m)
  unfolding sorted_by_key
  sorted_by_key-IsOrdered [] d = tt
  sorted_by_key-IsOrdered ((k, v) ∷ m) d =
      sort_insert-IsOrdered k v (sorted_by_key m) (lookup-sorted_by_key k m ∙ d.0)
        (sorted_by_key-IsOrdered m d.1)

  -- Sorting forgets the order in which a map is iterated.
  pub sorted_by_key-IsSame :
      (m n : Table V) → IsKeyed m → IsKeyed n → IsSame m n → sorted_by_key m ≡ sorted_by_key n
  sorted_by_key-IsSame m n dm dn same =
      IsOrdered-unique (sorted_by_key m) (sorted_by_key n) (sorted_by_key-IsOrdered m dm)
        (sorted_by_key-IsOrdered n dn)
        (λ k. lookup-sorted_by_key k m ∙ same k ∙ sym (lookup-sorted_by_key k n))
