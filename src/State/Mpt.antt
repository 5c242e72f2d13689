-- ===== src/State/Mpt.antt =====
-- reth-trie-risc0-zkvm/src/mpt.rs: a trie whose values are the RLP encodings of one type.
use reth_proofs.Prelude.{ℕ, ◌≡◌, Option, none, some, List, ◌==◌, if◌then◌else◌, arith}
use reth_proofs.Outcome.{Outcome, ok, rlp_error, ok_or, ◌>>=◌, >>=-eq-ok}
use reth_proofs.Table.{Table}
use reth_proofs.External.{Bytes, Codec, CodecLaws, External, TrieLaws}

pub record MptNode (x : External) (T : Type 0) : Type 0 where
  pub inner : x.CachedTrie

module _ (x : External) {T : Type 0} where
  unfoldable pub mpt_default : MptNode x T
  mpt_default = record { inner = x.trie_default }

  -- `MptNode::from_digest`: the zero digest stands for the empty trie.
  unfoldable pub from_digest : ℕ → MptNode x T
  unfolding mpt_default
  from_digest digest =
      if digest == 0 then mpt_default else record { inner = x.trie_from_digest digest }

  unfoldable pub from_rlp : List Bytes → Outcome (MptNode x T)
  from_rlp nodes = do inner ← x.trie_from_rlp nodes; ok (record { inner = inner })

  -- Through `Deref` and `DerefMut` the operations of the trie itself.
  unfoldable pub hydrate : MptNode x T → Table Bytes → Outcome (MptNode x T)
  hydrate node m = do inner ← x.hydrate_from_rlp_map node.inner m; ok (record { inner = inner })

  unfoldable pub remove : MptNode x T → ℕ → Outcome (MptNode x T)
  remove node key = do (inner, _) ← x.trie_remove node.inner key; ok (record { inner = inner })

module _ (x : External) {T : Type 0} (c : Codec T) where
  abbrev decoded : Option Bytes → Outcome (Option T)
  decoded none = ok none
  decoded (some bytes) = do value ← ok_or (c.decode bytes) rlp_error; ok (some value)

  unfoldable pub get_rlp : MptNode x T → ℕ → Outcome (Option T)
  get_rlp node key = do bytes ← x.trie_get node.inner key; decoded bytes

  unfoldable pub insert_rlp : MptNode x T → ℕ → T → Outcome (MptNode x T)
  insert_rlp node key value = do
    inner ← x.trie_insert node.inner key (c.encode value)
    ok (record { inner = inner })

module _ (x : External) (laws : TrieLaws x) {T : Type 0} (c : Codec T) where
  -- A typed read after a typed write: the value at the key, and what was there elsewhere.
  pub get_rlp-insert_rlp :
      (codec : CodecLaws c) (node node' : MptNode x T) (k j : ℕ) (v : T)
      → insert_rlp x c node k v ≡ ok node'
      → get_rlp x c node' j ≡ (if k == j then ok (some v) else get_rlp x c node j)
  unfolding get_rlp insert_rlp
  get_rlp-insert_rlp codec node node' k j v h =
      ground (arith, laws.get-insert node.inner node'.inner k j (c.encode v), codec.decode-encode v)

  pub get_rlp-remove :
      (node node' : MptNode x T) (k j : ℕ)
      → remove x node k ≡ ok node'
      → get_rlp x c node' j ≡ (if k == j then ok none else get_rlp x c node j)
  unfolding get_rlp remove
  get_rlp-remove node node' k j h =
      let (r, e, q) = >>=-eq-ok (x.trie_remove node.inner k) _ h in
      ground (arith, laws.get-remove node.inner node'.inner r.1 k j)
