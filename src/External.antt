-- ===== src/External.antt =====
-- What the state code calls and does not implement: the trie of the `risc0-ethereum-trie` crate,
-- alloy's RLP and Keccak, and reth's account type, with the behaviour that the callers rely on.
-- A 32-byte word (`B256`) and a `U256` are numbers; bytes are lists of numbers.
pub mod Toy
use reth_proofs.Prelude.{
  ℕ, zero, suc, ◌≡◌, Bool, true, Option, none, some, List, [], ◌∷◌, ◌==◌, if◌then◌else◌, ◌/◌, ◌%◌,
  ◌^◌,
}
use reth_proofs.Outcome.{Outcome, ok}
use reth_proofs.Table.{Table}

abbrev pub Bytes : Type 0
Bytes = List ℕ

-- `keccak256(RLP(""))`, the root hash of the empty trie.
abbrev pub empty_root : ℕ
empty_root = 0x56e81f171bcc55a6ff8345e692c0f86e5b48e01b996cadc001622fb5e363b421

-- `uint.to_be_bytes::<n>()`
unfoldable pub to_be_bytes : ℕ → ℕ → Bytes
to_be_bytes zero v = []
to_be_bytes (suc n) v = v / 256 ^ n % 256 ∷ to_be_bytes n v

-- `alloy_trie::TrieAccount`
pub record TrieAccount : Type 0 where
  pub nonce : ℕ
  pub balance : ℕ
  pub storage_root : ℕ
  pub code_hash : ℕ

-- reth's `Account`, as it stands in a post state.
pub record Account : Type 0 where
  pub nonce : ℕ
  pub balance : ℕ
  pub bytecode_hash : Option ℕ

-- `alloy_rlp::{Encodable, Decodable}` of a type; `none` is a decoding error.
pub record Codec (T : Type 0) : Type 0 where
  pub encode : T → Bytes
  pub decode : Bytes → Option T

pub record External : Type 1 where
  pub CachedTrie : Type 0
  pub trie_default : CachedTrie
  pub trie_from_digest : ℕ → CachedTrie
  pub hydrate_from_rlp_map : CachedTrie → Table Bytes → Outcome CachedTrie
  pub trie_from_rlp : List Bytes → Outcome CachedTrie
  pub trie_get : CachedTrie → ℕ → Outcome (Option Bytes)
  pub trie_insert : CachedTrie → ℕ → Bytes → Outcome CachedTrie
  pub trie_remove : CachedTrie → ℕ → Outcome (CachedTrie × Bool)
  pub trie_clear : CachedTrie → CachedTrie
  pub hash_slow : CachedTrie → ℕ
  pub keccak256 : Bytes → ℕ
  pub account_codec : Codec TrieAccount
  pub u256_codec : Codec ℕ
  pub account_is_empty : Account → Bool
  pub account_bytecode_hash : Account → ℕ

-- What a decoder makes of what its encoder wrote.
pub record CodecLaws {T : Type 0} (c : Codec T) : Type 0 where
  pub decode-encode : (v : T) → c.decode (c.encode v) ≡ some v

-- The documented behaviour of the trie, as a map from keys to bytes with a root hash. A lookup may
-- panic where the trie is not resolved, before and after a change at another key alike.
pub record TrieLaws (x : External) : Type 0 where
  pub get-default : (k : ℕ) → x.trie_get x.trie_default k ≡ ok none
  pub get-clear : (t : x.CachedTrie) (k : ℕ) → x.trie_get (x.trie_clear t) k ≡ ok none
  pub get-insert :
      (t t' : x.CachedTrie) (k j : ℕ) (v : Bytes)
      → x.trie_insert t k v ≡ ok t'
      → x.trie_get t' j ≡ (if k == j then ok (some v) else x.trie_get t j)
  pub get-remove :
      (t t' : x.CachedTrie) (b : Bool) (k j : ℕ)
      → x.trie_remove t k ≡ ok (t', b)
      → x.trie_get t' j ≡ (if k == j then ok none else x.trie_get t j)
  pub hash-default : x.hash_slow x.trie_default ≡ empty_root
  pub hash-clear : (t : x.CachedTrie) → x.hash_slow (x.trie_clear t) ≡ empty_root
  pub hash-from_digest : (d : ℕ) → x.hash_slow (x.trie_from_digest d) ≡ d
  pub hash-hydrate :
      (t t' : x.CachedTrie) (m : Table Bytes)
      → x.hydrate_from_rlp_map t m ≡ ok t'
      → x.hash_slow t' ≡ x.hash_slow t
