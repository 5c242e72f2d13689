-- ===== src/Table/Laws.antt =====
-- Laws of the association lists that model `HashMap`.
use reth_proofs.Prelude.{
  ℕ, ◌≡◌, refl, none, some, [], ◌∷◌, arith, ◌==◌, if◌then◌else◌, All, ==_refl,
}
use reth_proofs.Table.{Table, lookup, insert, erase, IsKeyed}

module _ {ℓ} {V : Type ℓ} where
  pub lookup-insert :
      (key j : ℕ) (value : V) (m : Table V)
      → lookup j (insert key value m) ≡ (if key == j then some value else lookup j m)
  unfolding lookup insert
  lookup-insert key j value [] = refl
  lookup-insert key j value ((k, held) ∷ entries) =
      ground (arith, lookup-insert key j value entries)

  pub lookup-erase :
      (k j : ℕ) (m : Table V) → lookup j (erase k m) ≡ (if k == j then none else lookup j m)
  unfolding lookup erase
  lookup-erase k j [] = ground arith
  lookup-erase k j ((i, w) ∷ m) = ground (arith, lookup-erase k j m)

  pub insert-IsKeyed : (k : ℕ) (v : V) (m : Table V) → IsKeyed m → IsKeyed (insert k v m)
  unfolding lookup insert
  insert-IsKeyed k v [] h = (refl, tt)
  insert-IsKeyed k v ((i, w) ∷ m) h =
      ground (arith, insert-IsKeyed k v m h.1, lookup-insert k i v m)

  pub erase-IsKeyed : (k : ℕ) (m : Table V) → IsKeyed m → IsKeyed (erase k m)
  unfolding lookup erase
  erase-IsKeyed k [] h = tt
  erase-IsKeyed k ((i, w) ∷ m) h = ground (arith, erase-IsKeyed k m h.1, lookup-erase k i m)

  -- What holds of every entry holds of what a lookup finds.
  pub All-lookup {κ} :
      (P : ℕ × V → Type κ) (m : Table V) (k : ℕ) (v : V) → All P m → lookup k m ≡ some v → P (k, v)
  unfolding lookup
  All-lookup P [] k v h e = cc
  All-lookup P ((i, w) ∷ m) k v h e = ground (arith, All-lookup P m k v h.1)

  -- In a map with distinct keys, what holds of every lookup holds of every entry.
  pub lookup-All {κ} :
      (P : ℕ × V → Type κ) (m : Table V)
      → IsKeyed m
      → ((k : ℕ) (v : V) → lookup k m ≡ some v → P (k, v))
      → All P m
  unfolding lookup
  lookup-All P [] d h = tt
  lookup-All P ((i, w) ∷ m) d h =
      (h i w (rw ==_refl), lookup-All P m d.1 (λ k v e. h k v (ground arith)))
