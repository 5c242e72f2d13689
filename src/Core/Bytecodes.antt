-- ===== src/Core/Bytecodes.antt =====
-- `Bytecodes` of core/src/lib.rs: the contracts' code by its hash.
pub mod Keys
use reth_proofs.Prelude.{ℕ, List, [], ◌∷◌, ◌==◌}
use reth_proofs.Outcome.{Outcome, ok, check, expect, in_library, invalid_bytecode_hash, ◌>>=◌, ◌>>◌}
use reth_proofs.Table.{Table, insert}
use reth_proofs.External.{Bytes}
use reth_proofs.State.{ExecutionWitness}
use reth_proofs.Core.{Alloy}

pub record Bytecodes (y : Alloy) : Type 0 where
  pub codes : Table y.Bytecode

module _ (y : Alloy) where
  unfoldable pub hash_pairs : List Bytes → Outcome (List (ℕ × y.Bytecode))
  hash_pairs [] = ok []
  hash_pairs (encoded ∷ codes_list) = do
    bytecode ← expect (y.new_raw encoded) in_library
    pairs ← hash_pairs codes_list
    ok ((y.bytecode_hash_slow bytecode, bytecode) ∷ pairs)

  -- The single-threaded pass of `build_map`.
  unfoldable pub insert_pairs : Table y.Bytecode → List (ℕ × y.Bytecode) → Table y.Bytecode
  insert_pairs bytecode_by_hash [] = bytecode_by_hash
  insert_pairs bytecode_by_hash ((code_hash, bytecode) ∷ pairs) =
      insert_pairs (insert code_hash bytecode bytecode_by_hash) pairs

  unfoldable pub build_map : List Bytes → Outcome (Table y.Bytecode)
  build_map codes_list = do pairs ← hash_pairs codes_list; ok (insert_pairs [] pairs)

  unfoldable pub from_execution_witness : ExecutionWitness → Outcome (Bytecodes y)
  from_execution_witness witness = do codes ← build_map witness.codes; ok (record { codes = codes })

  unfoldable pub validate_codes : Table y.Bytecode → Outcome (Unit {0})
  validate_codes [] = ok tt
  validate_codes ((hash, bytecode) ∷ codes) = do
    check (y.bytecode_hash_slow bytecode == hash)
        (invalid_bytecode_hash hash (y.bytecode_hash_slow bytecode))
    validate_codes codes

  unfoldable pub validate : Bytecodes y → Outcome (Unit {0})
  validate bytecodes = validate_codes bytecodes.codes
