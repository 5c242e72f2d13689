-- ===== src/Prototype/Witness.antt =====
-- prototype/src/utils.rs: what `format_execution_witness` makes of the nodes and keys of a witness.
-- The lines that it writes stand in the child Lines; `Rlp` is what it calls of alloy_rlp.
pub mod Leaves
pub mod Lines
use reth_proofs.Prelude.{
  ℕ, zero, suc, ◌/◌, ◌%◌, Bool, true, false, Option, none, some, List, [], ◌∷◌, length, drop, ◌==◌,
  if◌then◌else◌,
}
use reth_proofs.External.{Bytes, TrieAccount, External}

pub data PayloadView : Type 0 where
  string : Bytes → PayloadView
  items : List Bytes → PayloadView

pub record Rlp : Type 0 where
  pub decode_raw : Bytes → Option PayloadView
  pub decode_bytes : Bytes → Option Bytes

pub data NodeKind : Type 0 where
  null_node : NodeKind
  digest_node : NodeKind
  unknown_node : NodeKind
  branch : NodeKind
  extension : NodeKind
  leaf_undecoded : NodeKind
  leaf_account : TrieAccount → NodeKind
  leaf_storage : ℕ → NodeKind
  leaf_unknown : NodeKind
  list_node : ℕ → NodeKind

pub data KeyKind : Type 0 where
  address_preimage : Bytes → KeyKind
  slot_hash : Bytes → KeyKind
  storage_access : (addr_hash slot_hash : Bytes) → KeyKind
  unknown_key : ℕ → Bytes → KeyKind

-- `path[0] & 0x20 != 0`, on a path that is not empty
abbrev pub has_leaf_flag : Bytes → Bool
has_leaf_flag [] = false
has_leaf_flag (b ∷ path) = b / 32 % 2 == 1

abbrev pub take : ℕ → Bytes → Bytes
take zero bytes = []
take (suc n) [] = []
take (suc n) (b ∷ bytes) = b ∷ take n bytes

unfoldable pub key_kind : Bytes → KeyKind
key_kind key =
    if length key == 20
    then address_preimage key
    else (if length key == 32
        then slot_hash key
        else (if length key == 64
            then storage_access (take 32 key) (drop 32 key)
            else unknown_key (length key) key))

module _ (x : External) (r : Rlp) where
  abbrev pub value_kind : (account : Option TrieAccount) → (word : Option ℕ) → NodeKind
  value_kind (some account) word = leaf_account account
  value_kind none (some val) = leaf_storage val
  value_kind none none = leaf_unknown

  abbrev pub leaf_kind : Option Bytes → NodeKind
  leaf_kind none = leaf_undecoded
  leaf_kind (some val) = value_kind (x.account_codec.decode val) (x.u256_codec.decode val)

  -- A list of two items: an extension or a leaf.
  abbrev pub pair_kind : Option Bytes → (val : Bytes) → NodeKind
  pair_kind none val = unknown_node
  pair_kind (some path) val =
      if has_leaf_flag path then leaf_kind (r.decode_bytes val) else extension

  abbrev pub string_kind : ℕ → NodeKind
  string_kind len =
      if len == 0 then null_node else (if len == 32 then digest_node else unknown_node)

  abbrev pub items_kind : List Bytes → NodeKind
  items_kind (path ∷ val ∷ []) = pair_kind (r.decode_bytes path) val
  items_kind payload = if length payload == 17 then branch else list_node (length payload)

  abbrev pub payload_kind : Option PayloadView → NodeKind
  payload_kind none = unknown_node
  payload_kind (some (string payload)) = string_kind (length payload)
  payload_kind (some (items payload)) = items_kind payload

  unfoldable pub node_kind : Bytes → NodeKind
  node_kind encoded = payload_kind (r.decode_raw encoded)
