-- ===== src/State/Update/Slots.antt =====
-- What the storage trie of one address holds after the slot changes of a block.
use reth_proofs.Prelude.{
  ℕ, ◌≡◌, ap, ◌∙◌, Option, none, some, [], ◌∷◌, arith, ◌==◌, if◌then◌else◌, inl, inr, Bool-cases,
}
use reth_proofs.Outcome.{Outcome, ok, >>=-eq-ok}
use reth_proofs.Table.{Table, lookup, IsKeyed}
use reth_proofs.External.{Bytes, External, TrieLaws}
use reth_proofs.State.Update.{HashedStorage, apply_slot, apply_slots, update_storage}
use reth_proofs.State.Update.Sorting.{lookup-sorted_by_key, sorted_by_key-IsKeyed}

module _ (x : External) where
  -- A slot's bytes for a new value: zero is no entry.
  abbrev pub slot_value : ℕ → Option Bytes
  slot_value value = if value == 0 then none else some (x.u256_codec.encode value)

  -- A slot's read after a change, or the old read if there is none.
  abbrev pub slot_after : Option ℕ → Outcome (Option Bytes) → Outcome (Option Bytes)
  slot_after none old = old
  slot_after (some value) old = ok (slot_value value)

module _ (x : External) (laws : TrieLaws x) where
  get-apply_slot :
      (t t' : x.CachedTrie) (slot value j : ℕ)
      → apply_slot x t slot value ≡ ok t'
      → x.trie_get t' j ≡ (if slot == j then ok (slot_value x value) else x.trie_get t j)
  unfolding apply_slot
  get-apply_slot t t' slot value j h = elim (Bool-cases (value == 0)) [
    | inl zeroed ↦
        let (r, e, q) = >>=-eq-ok (x.trie_remove t slot) _ (rw zeroed at h) in
        rw zeroed (laws.get-remove t t' r.1 slot j (ground (arith, e, q)))
    | inr set ↦ rw set (laws.get-insert t t' slot j _ (rw set at h))
  ]

  get-apply_slots :
      (slots : Table ℕ) (t t' : x.CachedTrie) (j : ℕ)
      → IsKeyed slots
      → apply_slots x t slots ≡ ok t'
      → x.trie_get t' j ≡ slot_after x (lookup j slots) (x.trie_get t j)
  unfolding apply_slots lookup
  get-apply_slots [] t t' j d h = ground arith
  get-apply_slots ((slot, value) ∷ slots) t t' j d h =
      let (u, e, q) = >>=-eq-ok (apply_slot x t slot value) _ h in
      ground (arith, get-apply_slot t u slot value j e, get-apply_slots slots u t' j d.1 q)

  -- After `update_storage` a slot of the diff reads as its new value, and any other as before, or as
  -- absent if the storage was wiped.
  pub get-update_storage :
      (t t' : x.CachedTrie) (storage : HashedStorage) (j : ℕ)
      → IsKeyed storage.storage
      → update_storage x t storage ≡ ok t'
      → x.trie_get t' j
        ≡ slot_after x
            (lookup j storage.storage)
            (if storage.wiped then ok none else x.trie_get t j)
  unfolding update_storage
  get-update_storage t t' storage j d h = elim (Bool-cases storage.wiped) [
    | inl w ↦
        rw (w, ← lookup-sorted_by_key j storage.storage)
          (get-apply_slots _ (x.trie_clear t) t' j (sorted_by_key-IsKeyed _ d) (rw w at h)
            ∙ ap (slot_after x _) (laws.get-clear t j))
    | inr w ↦
        rw (w, ← lookup-sorted_by_key j storage.storage)
          (get-apply_slots _ t t' j (sorted_by_key-IsKeyed _ d) (rw w at h))
  ]
