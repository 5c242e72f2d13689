-- ===== src/Tests/World.antt =====
-- The data of the examples: a witness, the block that it is for, and small stand-ins for the
-- libraries.
use reth_proofs.Prelude.{
  ℕ, zero, suc, ◌+◌, ◌*◌, refl, true, false, Option, none, some, [], ◌∷◌, ◌==◌, arith,
}
use reth_proofs.Outcome.{ok}
use reth_proofs.Table.{Table}
use reth_proofs.External.{Bytes, Account}
use reth_proofs.External.Toy.{entries, hydrated, keccak256, print, toy}
use reth_proofs.State.{Risc0ZkvmTrie, ExecutionWitness}
use reth_proofs.State.Update.{HashedStorage, HashedPostState}
use reth_proofs.Core.{Header, Alloy, AlloyLaws, Block}
use reth_proofs.Core.Bytecodes.{Bytecodes}
use reth_proofs.Core.Input.{ZkvmInput}
use reth_proofs.Guest.{Zkvm}

-- A header is its three numbers, and its hash is a sum of them; a signature is its signer.
abbrev hash_header : Header → ℕ
hash_header h = h.number + 31 * h.parent_hash + 97 * h.state_root + 1

abbrev decode_header : Bytes → Option Header
decode_header (n ∷ p ∷ s ∷ []) =
    some (record { number = n; parent_hash = p; state_root = s; rest = [] })
decode_header _ = none

abbrev pub toy_alloy : Alloy
toy_alloy = record {
  Transaction = ℕ;
  BodyRest = Unit;
  VerifyingKey = ℕ;
  Signature = ℕ;
  hash_header = hash_header;
  decode_header = decode_header;
  to_k256 = λ tx. some tx;
  signature_hash = λ tx. tx + 1;
  recover_from_prehash = λ tx h. some tx;
  verify_prehash = λ vk h sig. vk == sig;
  address_from_public_key = λ vk. vk ∷ [];
  Bytecode = Bytes;
  new_raw = λ code. some code;
  bytecode_hash_slow = keccak256;
}

pub toy_alloy-AlloyLaws : AlloyLaws toy_alloy
toy_alloy-AlloyLaws = record { recovered_verifies = λ tx vk h. (tx, refl, ground (arith, h)) }

abbrev pub alice : Bytes
alice = 1 ∷ 1 ∷ 1 ∷ 1 ∷ 1 ∷ 1 ∷ 1 ∷ 1 ∷ 1 ∷ 1 ∷ 1 ∷ 1 ∷ 1 ∷ 1 ∷ 1 ∷ 1 ∷ 1 ∷ 1 ∷ 1 ∷ 1 ∷ []

abbrev pub alice_hash : ℕ
alice_hash = keccak256 alice

-- The hash of the slot with index 1.
abbrev pub slot : ℕ
slot = keccak256 (
    0 ∷ 0 ∷ 0 ∷ 0 ∷ 0 ∷ 0 ∷ 0 ∷ 0 ∷ 0 ∷ 0 ∷ 0 ∷ 0 ∷ 0 ∷ 0 ∷ 0 ∷ 0 ∷ 0 ∷ 0 ∷ 0 ∷ 0 ∷ 0 ∷ 0 ∷ 0 ∷ 0
    ∷ 0 ∷ 0 ∷ 0 ∷ 0 ∷ 0 ∷ 0 ∷ 0 ∷ 1 ∷ [])

abbrev pub storage_entries : ℕ → Table Bytes
storage_entries v = (slot, v ∷ 0 ∷ 0 ∷ 0 ∷ []) ∷ []

abbrev pub storage_root : ℕ → ℕ
storage_root v = keccak256 (print (storage_entries v))

-- Alice's leaf, with a slot that holds `v`.
abbrev pub state_entries : (nonce v : ℕ) → Table Bytes
state_entries nonce v = (alice_hash, nonce ∷ 100 ∷ storage_root v ∷ 5 ∷ []) ∷ []

abbrev pub state_root : (nonce v : ℕ) → ℕ
state_root nonce v = keccak256 (print (state_entries nonce v))

abbrev pub pre_state : Risc0ZkvmTrie toy
pre_state = record {
  state_trie = record { inner = hydrated (state_root 1 7) (state_entries 1 7) };
  storage_tries = (alice_hash, hydrated (storage_root 7) (storage_entries 7)) ∷ [];
}

abbrev pub post_state : Risc0ZkvmTrie toy
post_state = record {
  state_trie = record { inner = entries (state_entries 2 9) };
  storage_tries = (alice_hash, entries (storage_entries 9)) ∷ [];
}

abbrev pub alice_account : Account
alice_account = record { nonce = 2; balance = 100; bytecode_hash = some 5 }

abbrev pub alice_storage : HashedStorage
alice_storage = record { wiped = false; storage = (slot, 9) ∷ [] }

abbrev pub diff : HashedPostState
diff = record {
  accounts = (alice_hash, some alice_account) ∷ (4, none) ∷ [];
  storages = (alice_hash, alice_storage) ∷ [];
}

abbrev pub grandparent : Header
grandparent = record { number = 8; parent_hash = 3; state_root = 4; rest = [] }

abbrev pub parent : Header
parent = record {
  number = 9;
  parent_hash = hash_header grandparent;
  state_root = state_root 1 7;
  rest = [];
}

abbrev pub block : Block toy_alloy
block = record {
  header = record {
    number = 10;
    parent_hash = hash_header parent;
    state_root = state_root 2 9;
    rest = [];
  };
  transactions = 42 ∷ [];
  rest = tt;
}

abbrev pub witness : ExecutionWitness
witness = record {
  state = print (state_entries 1 7) ∷ print (storage_entries 7) ∷ [];
  codes = (1 ∷ 2 ∷ []) ∷ [];
  keys = alice ∷ (3 ∷ []) ∷ [];
  headers = (8 ∷ 3 ∷ 4 ∷ []) ∷ (9 ∷ parent.parent_hash ∷ parent.state_root ∷ []) ∷ [];
}

abbrev pub bytecodes : Bytecodes toy_alloy
bytecodes = record { codes = (keccak256 (1 ∷ 2 ∷ []), 1 ∷ 2 ∷ []) ∷ [] }

abbrev pub input : ZkvmInput toy toy_alloy
input = record {
  ancestor_headers = record { headers = parent ∷ grandparent ∷ [] };
  signers_hint = record { signers = 42 ∷ [] };
  current_block = record { body = block };
  ethereum_state = pre_state;
  bytecodes = bytecodes;
}

-- The one input has the encoding `[1]`, and the block runs to `diff`.
abbrev deserialize : Bytes → Option (ZkvmInput toy toy_alloy)
deserialize (suc zero ∷ []) = some input
deserialize _ = none

abbrev pub toy_zkvm : Zkvm toy toy_alloy
toy_zkvm = record {
  deserialize = deserialize;
  deserialize_alt = λ bytes. none;
  validate_header = λ h. true;
  validate_header_against_parent = λ h p. true;
  validate_block_pre_execution = λ b. true;
  BlockExecutionOutput = Unit;
  execute = λ db b. ok tt;
  post_execution_is_ok = λ b o. true;
  from_bundle_state = λ o. diff;
  stateless_validation = λ b keys w. ok tt;
}
