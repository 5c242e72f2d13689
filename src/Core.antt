-- ===== src/Core.antt =====
-- core/src: the four inputs of a zkVM run, the database that the EVM reads, and their validation.
-- `Alloy` is what this code calls of alloy and k256: types that it only hands on, header sealing
-- and decoding, signatures and bytecode hashing.
pub mod Headers
pub mod Signers
pub mod Bytecodes
pub mod TrieDb
pub mod Input
use reth_proofs.Prelude.{ℕ, ◌≡◌, Bool, true, Option, some, List}
use reth_proofs.External.{Bytes}

-- `alloy_consensus::Header`; the fields that the code only hashes or hands on are `rest`.
pub record Header : Type 0 where
  pub number : ℕ
  pub parent_hash : ℕ
  pub state_root : ℕ
  pub rest : Bytes

pub record SealedHeader : Type 0 where
  pub header : Header
  pub open header use *
  pub hash : ℕ

pub record Alloy : Type 1 where
  pub Transaction : Type 0
  pub BodyRest : Type 0
  pub VerifyingKey : Type 0
  pub Signature : Type 0
  pub hash_header : Header → ℕ
  pub decode_header : Bytes → Option Header
  -- `tx.signature().to_k256()`, `tx.signature_hash()`, `tx.signature().recover_from_prehash(..)`
  pub to_k256 : Transaction → Option Signature
  pub signature_hash : Transaction → ℕ
  pub recover_from_prehash : Transaction → ℕ → Option VerifyingKey
  pub verify_prehash : VerifyingKey → ℕ → Signature → Bool
  pub address_from_public_key : VerifyingKey → Bytes
  -- `revm::state::Bytecode`: `new_raw` panics on a malformed delegation, here `none`.
  pub Bytecode : Type 0
  pub new_raw : Bytes → Option Bytecode
  pub bytecode_hash_slow : Bytecode → ℕ

-- A key that is recovered from a signature verifies it, as the libraries give for signatures with a
-- low s, to which EIP-2 bounds those of transactions: recovery normalizes a high s, and verification
-- refuses it.
pub record AlloyLaws (y : Alloy) : Type 0 where
  pub recovered_verifies :
      (tx : y.Transaction) (vk : y.VerifyingKey)
      → y.recover_from_prehash tx (y.signature_hash tx) ≡ some vk
      → (sig : y.Signature) × (y.to_k256 tx ≡ some sig)
        × (y.verify_prehash vk (y.signature_hash tx) sig ≡ true)

-- `alloy_consensus::Block`
pub record Block (y : Alloy) : Type 0 where
  pub header : Header
  pub transactions : List y.Transaction
  pub rest : y.BodyRest

-- `CurrentBlock`
pub record CurrentBlock (y : Alloy) : Type 0 where
  pub body : Block y

-- `reth_primitives_traits::RecoveredBlock`
pub record RecoveredBlock (y : Alloy) : Type 0 where
  pub block : Block y
  pub senders : List Bytes
