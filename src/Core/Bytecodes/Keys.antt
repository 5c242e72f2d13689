-- ===== src/Core/Bytecodes/Keys.antt =====
-- What `validate` accepts, and the maps that `build_map` makes.
use reth_proofs.Prelude.{
  ℕ, ◌≡◌, refl, some, List, [], ◌∷◌, ◌↔◌, ◌==◌, ==_iff, ==_refl, arith, subst, inl, inr, Bool-cases,
  All,
}
use reth_proofs.Outcome.{
  expect, in_library, ok, check, >>=-eq-ok, check-eq-ok, invalid_bytecode_hash,
}
use reth_proofs.Table.{Table, lookup, insert}
use reth_proofs.Table.Laws.{lookup-insert}
use reth_proofs.External.{Bytes}
use reth_proofs.State.{ExecutionWitness}
use reth_proofs.Core.{Alloy}
use reth_proofs.Core.Bytecodes.{
  Bytecodes, hash_pairs, insert_pairs, build_map, from_execution_witness, validate_codes, validate,
}

module _ (y : Alloy) where
  -- The code stands under its hash.
  abbrev pub IsHashed : ℕ × y.Bytecode → Type 0
  IsHashed (hash, bytecode) = y.bytecode_hash_slow bytecode ≡ hash

  validate_codes_of_All :
      (codes : Table y.Bytecode) → All IsHashed codes → validate_codes y codes ≡ ok tt
  unfolding validate_codes
  validate_codes_of_All [] all = refl
  validate_codes_of_All ((hash, bytecode) ∷ codes) (same, all) =
      rw (same, ==_refl hash, validate_codes_of_All codes all)

  validate_codes-All :
      (codes : Table y.Bytecode) → validate_codes y codes ≡ ok tt → All IsHashed codes
  unfolding validate_codes
  validate_codes-All [] h = tt
  validate_codes-All ((hash, bytecode) ∷ codes) h =
      let computed = y.bytecode_hash_slow bytecode in
      let (_, e, q) =
        >>=-eq-ok (check (computed == hash) (invalid_bytecode_hash hash computed)) _ h in
      ((==_iff computed hash).0 (check-eq-ok _ _ e), validate_codes-All codes q)

  -- Validation passes exactly when every code of the map stands under its own hash.
  pub validate_iff : (b : Bytecodes y) → (validate y b ≡ ok tt) ↔ All IsHashed b.codes
  unfolding validate
  validate_iff b = (validate_codes-All b.codes, validate_codes_of_All b.codes)

  hash_pairs-IsHashed :
      (codes_list : List Bytes) (pairs : List (ℕ × y.Bytecode))
      → hash_pairs y codes_list ≡ ok pairs
      → All IsHashed pairs
  unfolding hash_pairs
  hash_pairs-IsHashed [] pairs h =
      let same : [] ≡ pairs = ground (arith, h) in subst (All IsHashed) same tt
  hash_pairs-IsHashed (encoded ∷ codes_list) pairs h =
      let (bytecode, e, q) = >>=-eq-ok (expect (y.new_raw encoded) in_library) _ h in
      let (others, f, p) = >>=-eq-ok (hash_pairs y codes_list) _ q in
      let same : (y.bytecode_hash_slow bytecode, bytecode) ∷ others ≡ pairs = ground (arith, p) in
      subst (All IsHashed) same (refl, hash_pairs-IsHashed codes_list others f)

  insert-IsHashed :
      (hash : ℕ) (bytecode : y.Bytecode) (codes : Table y.Bytecode)
      → IsHashed (hash, bytecode)
      → All IsHashed codes
      → All IsHashed (insert hash bytecode codes)
  unfolding insert
  insert-IsHashed hash bytecode [] same all = (same, tt)
  insert-IsHashed hash bytecode ((h, b) ∷ codes) same (here, all) =
      ground (arith, insert-IsHashed hash bytecode codes same all)

  insert_pairs-IsHashed :
      (codes : Table y.Bytecode) (pairs : List (ℕ × y.Bytecode))
      → All IsHashed codes
      → All IsHashed pairs
      → All IsHashed (insert_pairs y codes pairs)
  unfolding insert_pairs
  insert_pairs-IsHashed codes [] all more = all
  insert_pairs-IsHashed codes ((hash, bytecode) ∷ pairs) all (here, more) =
      insert_pairs-IsHashed (insert hash bytecode codes) pairs
        (insert-IsHashed hash bytecode codes here all) more

  -- The map that the host builds from a witness is one that the guest accepts.
  pub validate-from_execution_witness :
      (w : ExecutionWitness) (b : Bytecodes y)
      → from_execution_witness y w ≡ ok b
      → validate y b ≡ ok tt
  unfolding from_execution_witness build_map
  validate-from_execution_witness w b h =
      let (codes, e, q) = >>=-eq-ok (build_map y w.codes) _ h in
      let (pairs, f, p) = >>=-eq-ok (hash_pairs y w.codes) _ e in
      let same : insert_pairs y [] pairs ≡ b.codes = ground (arith, p, q) in
      (validate_iff b).1 (
        subst (All IsHashed) same
          (insert_pairs-IsHashed [] pairs tt (hash_pairs-IsHashed w.codes pairs f)))

  -- Some code of the map has the hash that is asked for.
  abbrev pub HasCode : Table y.Bytecode → ℕ → Type 0
  HasCode codes hash = (bytecode : y.Bytecode) × (lookup hash codes ≡ some bytecode)

  HasCode-insert_pairs :
      (codes : Table y.Bytecode) (pairs : List (ℕ × y.Bytecode)) (hash : ℕ)
      → HasCode codes hash
      → HasCode (insert_pairs y codes pairs) hash
  unfolding insert_pairs
  HasCode-insert_pairs codes [] hash held = held
  HasCode-insert_pairs codes ((h, b) ∷ pairs) hash (bytecode, e) =
      HasCode-insert_pairs (insert h b codes) pairs hash (elim (Bool-cases (h == hash)) [
        | inl same ↦ (b, rw (lookup-insert h hash b codes, same))
        | inr other ↦ (bytecode, rw (lookup-insert h hash b codes, other, e))
      ])

  -- The raw code decodes, and the map has a code with its hash.
  abbrev pub IsKept : Table y.Bytecode → Bytes → Type 0
  IsKept codes encoded =
      (bytecode : y.Bytecode) × (y.new_raw encoded ≡ some bytecode)
      × HasCode codes (y.bytecode_hash_slow bytecode)

  insert_pairs-IsKept :
      (codes : Table y.Bytecode) (codes_list : List Bytes) (pairs : List (ℕ × y.Bytecode))
      → hash_pairs y codes_list ≡ ok pairs
      → All (IsKept (insert_pairs y codes pairs)) codes_list
  unfolding hash_pairs insert_pairs
  insert_pairs-IsKept codes [] pairs h = tt
  insert_pairs-IsKept codes (encoded ∷ codes_list) pairs h =
      let (bytecode, e, q) = >>=-eq-ok (expect (y.new_raw encoded) in_library) _ h in
      let (others, f, p) = >>=-eq-ok (hash_pairs y codes_list) _ q in
      let hash = y.bytecode_hash_slow bytecode in
      let same : (hash, bytecode) ∷ others ≡ pairs = ground (arith, p) in
      subst (λ ps. All (IsKept (insert_pairs y codes ps)) (encoded ∷ codes_list)) same
        (
          (
            bytecode,
            ground (arith, e),
            HasCode-insert_pairs (insert hash bytecode codes) others hash
                (bytecode, rw (lookup-insert hash hash bytecode codes, ==_refl hash)),
          ),
          insert_pairs-IsKept (insert hash bytecode codes) codes_list others f,
        )

  -- The map that the host builds has, for each code of the witness, a code under that code's hash.
  pub from_execution_witness-IsKept :
      (w : ExecutionWitness) (b : Bytecodes y)
      → from_execution_witness y w ≡ ok b
      → All (IsKept b.codes) w.codes
  unfolding from_execution_witness build_map
  from_execution_witness-IsKept w b h =
      let (codes, e, q) = >>=-eq-ok (build_map y w.codes) _ h in
      let (pairs, f, p) = >>=-eq-ok (hash_pairs y w.codes) _ e in
      let same : insert_pairs y [] pairs ≡ b.codes = ground (arith, p, q) in
      subst (λ m. All (IsKept m) w.codes) same (insert_pairs-IsKept [] w.codes pairs f)
