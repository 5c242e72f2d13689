-- ===== src/Prototype/Witness/Leaves.antt =====
-- Which nodes are taken for account leaves.
use reth_proofs.Prelude.{
  ℕ, ◌≡◌, ◌↔◌, refl, true, none, some, Option, List, [], ◌∷◌, arith, Bool-cases, inl, inr,
  Option-cases,
}
use reth_proofs.External.{Bytes, TrieAccount, External}
use reth_proofs.Prototype.Witness.{
  PayloadView, string, items, Rlp, leaf_account, has_leaf_flag, value_kind, leaf_kind, pair_kind,
  items_kind, payload_kind, node_kind,
}

module _ (x : External) (r : Rlp) where
  -- The item is a path with the leaf flag.
  abbrev pub IsLeafPath : Bytes → Type 0
  IsLeafPath item = (path : Bytes) × (r.decode_bytes item ≡ some path) × (has_leaf_flag path ≡ true)

  -- The item is the encoding of an account.
  abbrev pub HoldsAccount : Bytes → TrieAccount → Type 0
  HoldsAccount item account =
      (val : Bytes) × (r.decode_bytes item ≡ some val) × (x.account_codec.decode val ≡ some account)

  value_kind-account :
      (account : Option TrieAccount) (word : Option ℕ) (a : TrieAccount)
      → value_kind x r account word ≡ leaf_account a
      → account ≡ some a
  value_kind-account (some account) word a h = ground (arith, h)
  value_kind-account none (some val) a h = cc
  value_kind-account none none a h = cc

  leaf_kind-account :
      (item : Bytes) (a : TrieAccount)
      → leaf_kind x r (r.decode_bytes item) ≡ leaf_account a
      → HoldsAccount item a
  leaf_kind-account item a h = elim (Option-cases (r.decode_bytes item)) [
    | inl missing ↦ cc (rw missing at h)
    | inr (val, e) ↦ (
      val,
      e,
      value_kind-account (x.account_codec.decode val) (x.u256_codec.decode val) a (rw e at h),
    )
  ]

  pair_kind-account :
      (path val : Bytes) (a : TrieAccount)
      → pair_kind x r (r.decode_bytes path) val ≡ leaf_account a
      → IsLeafPath path × HoldsAccount val a
  pair_kind-account path val a h = elim (Option-cases (r.decode_bytes path)) [
    | inl missing ↦ cc (rw missing at h)
    | inr (p, e) ↦ elim (Bool-cases (has_leaf_flag p)) [
      | inl leaf ↦ ((p, e, leaf), leaf_kind-account val a (rw (e, leaf) at h))
      | inr other ↦ cc (rw (e, other) at h)
    ]
  ]

  items_kind-account :
      (payload : List Bytes) (a : TrieAccount)
      → items_kind x r payload ≡ leaf_account a
      → (path : Bytes) × (val : Bytes) × (payload ≡ path ∷ val ∷ [])
        × IsLeafPath path
        × HoldsAccount val a
  items_kind-account [] a h = cc
  items_kind-account (p ∷ []) a h = cc
  items_kind-account (p ∷ v ∷ []) a h =
      let (leaf, holds) = pair_kind-account p v a h in (p, v, refl, leaf, holds)
  items_kind-account (p ∷ v ∷ w ∷ rest) a h = ground (arith, h)

  payload_kind-account :
      (payload : Option PayloadView) (a : TrieAccount)
      → payload_kind x r payload ≡ leaf_account a
      → (path : Bytes) × (val : Bytes) × (payload ≡ some (items (path ∷ val ∷ [])))
        × IsLeafPath path
        × HoldsAccount val a
  payload_kind-account none a h = cc
  payload_kind-account (some (string payload)) a h = ground (arith, h)
  payload_kind-account (some (items payload)) a h =
      let (p, v, e, leaf, holds) = items_kind-account payload a h in (p, v, rw e, leaf, holds)

  -- A node is shown as an account leaf exactly if it decodes to a list of a path with the leaf flag
  -- and the encoding of that account.
  pub node_kind_iff :
      (encoded : Bytes) (a : TrieAccount)
      → (node_kind x r encoded ≡ leaf_account a) ↔ (
          (path : Bytes) × (val : Bytes) × (r.decode_raw encoded ≡ some (items (path ∷ val ∷ [])))
          × IsLeafPath path
          × HoldsAccount val a)
  unfolding node_kind
  node_kind_iff encoded a = (
    payload_kind-account (r.decode_raw encoded) a,
    λ (p, v, e, (path, f, leaf), (val, g, i)). rw (e, f, leaf, g, i),
  )
