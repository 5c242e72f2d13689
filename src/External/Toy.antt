-- ===== src/External/Toy.antt =====
-- A small concrete trie library, which shows that the assumed behaviour can be met and on which
-- the theorems are run: a trie is a digest, or the list of its entries.
use reth_proofs.Prelude.{
  ℕ, ◌+◌, ◌*◌, ◌≡◌, refl, Bool, true, false, ◌&&◌, Option, none, some, List, [], ◌∷◌, arith, ◌==◌,
  if◌then◌else◌,
}
use reth_proofs.Outcome.{Outcome, ok, err, panic, rlp_error, in_library}
use reth_proofs.Table.{Table, lookup, insert, erase}
use reth_proofs.Table.Laws.{lookup-insert, lookup-erase}
use reth_proofs.External.{Bytes, empty_root, TrieAccount, External, CodecLaws, TrieLaws}

-- `hydrated` keeps the digest that it was resolved from as its cached root hash.
pub data ToyTrie : Type 0 where
  digest : ℕ → ToyTrie
  entries : Table Bytes → ToyTrie
  hydrated : ℕ → Table Bytes → ToyTrie

abbrev pub keccak256 : Bytes → ℕ
keccak256 [] = 1
keccak256 (b ∷ bs) = b + 1 + 1000003 * keccak256 bs

-- A node is a row of keys, each with a value of four numbers.
abbrev cons_entry : ℕ × Bytes → Option (Table Bytes) → Option (Table Bytes)
cons_entry e none = none
cons_entry e (some m) = some (e ∷ m)

abbrev pub parse : Bytes → Option (Table Bytes)
parse [] = some []
parse (k ∷ a ∷ b ∷ c ∷ d ∷ rest) = cons_entry (k, a ∷ b ∷ c ∷ d ∷ []) (parse rest)
parse _ = none

abbrev pub print : Table Bytes → Bytes
print [] = []
print ((k, a ∷ b ∷ c ∷ d ∷ []) ∷ m) = k ∷ a ∷ b ∷ c ∷ d ∷ print m
print ((k, _) ∷ m) = k ∷ print m

abbrev hash_entries : Table Bytes → ℕ
hash_entries [] = empty_root
hash_entries (e ∷ m) = keccak256 (print (e ∷ m))

abbrev hydrate_with : ℕ → Option Bytes → Outcome ToyTrie
hydrate_with d none = ok (digest d)
hydrate_with d (some rlp) = elim (parse rlp) [ none ↦ err rlp_error | some m ↦ ok (hydrated d m) ]

abbrev pub hydrate : ToyTrie → Table Bytes → Outcome ToyTrie
hydrate (digest d) m = hydrate_with d (lookup d m)
hydrate t m = ok t

abbrev from_rlp : List Bytes → Outcome ToyTrie
from_rlp [] = ok (entries [])
from_rlp (rlp ∷ _) = hydrate_with (keccak256 rlp) (some rlp)

abbrev get : ToyTrie → ℕ → Outcome (Option Bytes)
get (digest d) k = panic in_library
get (entries m) k = ok (lookup k m)
get (hydrated d m) k = ok (lookup k m)

abbrev put : ToyTrie → ℕ → Bytes → Outcome ToyTrie
put (digest d) k v = panic in_library
put (entries m) k v = ok (entries (insert k v m))
put (hydrated d m) k v = ok (entries (insert k v m))

abbrev is_some : Option Bytes → Bool
is_some none = false
is_some (some _) = true

abbrev remove : ToyTrie → ℕ → Outcome (ToyTrie × Bool)
remove (digest d) k = panic in_library
remove (entries m) k = ok (entries (erase k m), is_some (lookup k m))
remove (hydrated d m) k = ok (entries (erase k m), is_some (lookup k m))

abbrev root : ToyTrie → ℕ
root (digest d) = d
root (entries m) = hash_entries m
root (hydrated d m) = d

abbrev decode_account : Bytes → Option TrieAccount
decode_account (n ∷ b ∷ r ∷ c ∷ _) =
    some (record { nonce = n; balance = b; storage_root = r; code_hash = c })
decode_account _ = none

abbrev decode_word : Bytes → Option ℕ
decode_word [] = none
decode_word (v ∷ _) = some v

abbrev is_empty_hash : Option ℕ → Bool
is_empty_hash none = true
is_empty_hash (some h) = h == 0

abbrev hash_or_empty : Option ℕ → ℕ
hash_or_empty none = 0
hash_or_empty (some h) = h

abbrev pub toy : External
toy = record {
  CachedTrie = ToyTrie;
  trie_default = entries [];
  trie_from_digest = digest;
  hydrate_from_rlp_map = hydrate;
  trie_from_rlp = from_rlp;
  trie_get = get;
  trie_insert = put;
  trie_remove = remove;
  trie_clear = λ t. entries [];
  hash_slow = root;
  keccak256 = keccak256;
  account_codec = record {
    encode = λ a. a.nonce ∷ a.balance ∷ a.storage_root ∷ a.code_hash ∷ [];
    decode = decode_account;
  };
  u256_codec = record { encode = λ v. v ∷ 0 ∷ 0 ∷ 0 ∷ []; decode = decode_word };
  account_is_empty = λ a. a.nonce == 0 && a.balance == 0 && is_empty_hash a.bytecode_hash;
  account_bytecode_hash = λ a. hash_or_empty a.bytecode_hash;
}

get-put :
    (t t' : ToyTrie) (k j : ℕ) (v : Bytes)
    → put t k v ≡ ok t'
    → get t' j ≡ (if k == j then ok (some v) else get t j)
get-put (digest d) t' k j v h = cc
get-put (entries m) t' k j v h = ground (arith, lookup-insert k j v m)
get-put (hydrated d m) t' k j v h = ground (arith, lookup-insert k j v m)

get-remove :
    (t t' : ToyTrie) (b : Bool) (k j : ℕ)
    → remove t k ≡ ok (t', b)
    → get t' j ≡ (if k == j then ok none else get t j)
get-remove (digest d) t' b k j h = cc
get-remove (entries m) t' b k j h = ground (arith, lookup-erase k j m)
get-remove (hydrated d m) t' b k j h = ground (arith, lookup-erase k j m)

root-hydrate : (t t' : ToyTrie) (m : Table Bytes) → hydrate t m ≡ ok t' → root t' ≡ root t
root-hydrate (digest d) t' m h = ground arith
root-hydrate (entries e) t' m h = ground arith
root-hydrate (hydrated d e) t' m h = ground arith

pub toy-TrieLaws : TrieLaws toy
unfolding lookup
toy-TrieLaws = record {
  get-default = λ k. refl;
  get-clear = λ t k. refl;
  get-insert = get-put;
  get-remove = get-remove;
  hash-default = refl;
  hash-clear = λ t. refl;
  hash-from_digest = λ d. refl;
  hash-hydrate = root-hydrate;
}

pub account-CodecLaws : CodecLaws toy.account_codec
account-CodecLaws = record { decode-encode = λ v. refl }

pub u256-CodecLaws : CodecLaws toy.u256_codec
u256-CodecLaws = record { decode-encode = λ v. refl }
