-- ===== src/Table/Ordered.antt =====
-- Tables in the order of their keys, and tables that are the same as maps.
use reth_proofs.Prelude.{
  ℕ, ◌≡◌, ◌<◌, ◌≤◌, refl, ap, ◌∙◌, sym, none, some, [], ◌∷◌, arith, ◌==◌, if◌then◌else◌, All, ◌⊎◌,
  inl, inr, Bool-cases, subst,
}
use reth_proofs.Table.{Table, lookup}

module _ {ℓ} {V : Type ℓ} where
  abbrev pub IsAbove : ℕ → Table V → Type 0
  IsAbove k = All (λ (e : ℕ × V). k < e.0)

  abbrev pub IsOrdered : Table V → Type 0
  IsOrdered [] = Unit
  IsOrdered ((k, v) ∷ m) = IsAbove k m × IsOrdered m

  -- Maps are equal as `HashMap`s: the same keys with the same values.
  abbrev pub IsSame : Table V → Table V → Type ℓ
  IsSame m n = (k : ℕ) → lookup k m ≡ lookup k n

  pub IsAbove-trans : (j k : ℕ) (m : Table V) → j < k → IsAbove k m → IsAbove j m
  IsAbove-trans j k [] lt above = tt
  IsAbove-trans j k ((i, v) ∷ m) lt (here, above) =
      (omega (arith, lt, here), IsAbove-trans j k m lt above)

  lookup-above : (j k : ℕ) (m : Table V) → j ≤ k → IsAbove k m → lookup j m ≡ none
  unfolding lookup
  lookup-above j k [] le above = refl
  lookup-above j k ((i, v) ∷ m) le (here, above) = ground (arith, lookup-above j k m le above)

  lookup-first : (k : ℕ) (v : V) (m : Table V) → lookup k ((k, v) ∷ m) ≡ some v
  unfolding lookup
  lookup-first k v m = ground arith

  lookup-rest :
      (j k : ℕ) (v : V) (m : Table V)
      → IsAbove k m
      → lookup j m ≡ (if k == j then none else lookup j ((k, v) ∷ m))
  unfolding lookup
  lookup-rest j k v m above = elim (Bool-cases (k == j)) [
    | inl hit ↦ rw hit (lookup-above j k m (ground (arith, hit)) above)
    | inr miss ↦ rw miss refl
  ]

  IsSame-first :
      (k : ℕ) (v w : V) (m n : Table V)
      → IsAbove k m
      → IsAbove k n
      → IsSame ((k, v) ∷ m) ((k, w) ∷ n)
      → (v ≡ w) × IsSame m n
  IsSame-first k v w m n above_m above_n same =
      let values : some v ≡ some w = sym (lookup-first k v m) ∙ same k ∙ lookup-first k w n in
      (
        cc values,
        λ j.
            lookup-rest j k v m above_m
            ∙ ap (λ held. if k == j then none else held) (same j)
            ∙ sym (lookup-rest j k w n above_n),
      )

  first_keys :
      (j k : ℕ) (v w : V) (m n : Table V)
      → IsAbove j m
      → IsAbove k n
      → IsSame ((j, v) ∷ m) ((k, w) ∷ n)
      → (j < k) ⊎ (k ≤ j)
      → k ≤ j
  unfolding lookup
  first_keys j k v w m n above_m above_n same (inl lt) =
      let absent = lookup-above j k n (omega (arith, lt)) above_n in
      absurd (ground (arith, lt, absent, sym (same j) ∙ lookup-first j v m))
  first_keys j k v w m n above_m above_n same (inr le) = le

  pub IsOrdered-unique : (m n : Table V) → IsOrdered m → IsOrdered n → IsSame m n → m ≡ n
  unfolding lookup
  IsOrdered-unique [] [] om on same = refl
  IsOrdered-unique [] ((k, w) ∷ n) om on same = cc (same k ∙ lookup-first k w n)
  IsOrdered-unique ((j, v) ∷ m) [] om on same = cc (sym (same j) ∙ lookup-first j v m)
  IsOrdered-unique ((j, v) ∷ m) ((k, w) ∷ n) om on same =
      let up = first_keys j k v w m n om.0 on.0 same (omega arith) in
      let down = first_keys k j w v n m on.0 om.0 (λ i. sym (same i)) (omega arith) in
      let keys : j ≡ k = omega (arith, up, down) in
      let same_k = subst (λ i. IsSame ((i, v) ∷ m) ((k, w) ∷ n)) keys same in
      let above_m = subst (λ i. IsAbove i m) keys om.0 in
      let (values, rest) = IsSame-first k v w m n above_m on.0 same_k in
      ap (λ i. (i, v) ∷ m) keys
      ∙ ap (λ u. (k, u) ∷ m) values
      ∙ ap (λ t. (k, w) ∷ t) (IsOrdered-unique m n om.1 on.1 rest)
