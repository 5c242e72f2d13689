-- ===== src/Table.antt =====
-- Rust's `HashMap`, keyed by numbers (32-byte words and block numbers), as an association list. The
-- order in which a map is iterated is that of the list; `IsKeyed` says that no key occurs twice.
pub mod Laws
pub mod Ordered
use reth_proofs.Prelude.{ℕ, ◌≡◌, Option, none, some, List, [], ◌∷◌, ◌==◌, if◌then◌else◌}

abbrev pub Table {ℓ} : Type ℓ → Type ℓ
Table V = List (ℕ × V)

module _ {ℓ} {V : Type ℓ} where
  -- `map.get(&key)`
  unfoldable pub lookup : ℕ → Table V → Option V
  lookup key [] = none
  lookup key ((k, held) ∷ entries) = if k == key then some held else lookup key entries

  -- `map.insert(key, value)`
  unfoldable pub insert : ℕ → V → Table V → Table V
  insert key value [] = (key, value) ∷ []
  insert key value ((k, held) ∷ entries) =
      if k == key then (key, value) ∷ entries else (k, held) ∷ insert key value entries

  -- `map.remove(&key)`
  unfoldable pub erase : ℕ → Table V → Table V
  erase key [] = []
  erase key ((k, held) ∷ entries) =
      let rest = erase key entries in if k == key then rest else (k, held) ∷ rest

  abbrev pub IsKeyed : Table V → Type ℓ
  IsKeyed [] = Unit
  IsKeyed ((k, v) ∷ m) = (lookup k m ≡ none) × IsKeyed m
