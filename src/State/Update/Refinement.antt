-- ===== src/State/Update/Refinement.antt =====
-- `update` against the diff that it is given, address by address: the leaf, the storage trie, and
-- what the reads return afterwards.
use reth_proofs.Prelude.{
  ℕ, ◌≡◌, ap, subst, ◌≢◌, ◌∙◌, sym, true, false, Option, none, some, [], ◌⊎◌, inl, inr, ◌==◌,
  if◌then◌else◌, arith, Bool-cases, Option-cases, ==_iff,
}
use reth_proofs.Outcome.{ok, >>=-eq-ok}
use reth_proofs.Table.{Table, lookup, IsKeyed}
use reth_proofs.External.{Bytes, empty_root, to_be_bytes, Account, External, TrieLaws, CodecLaws}
use reth_proofs.State.{Risc0ZkvmTrie}
use reth_proofs.State.Mpt.{get_rlp}
use reth_proofs.State.Read.{storage}
use reth_proofs.State.Update.{
  HashedStorage, HashedPostState, sorted_by_key, root_or_trie, root_of_trie, trie_account,
  entry_or_default, update_storage, update_storages, update,
}
use reth_proofs.State.Update.Sorting.{lookup-sorted_by_key, sorted_by_key-IsKeyed}
use reth_proofs.State.Update.Slots.{slot_after, get-update_storage}
use reth_proofs.State.Update.Storages.{StorageAt, update_storages-StorageAt}
use reth_proofs.State.Update.Accounts.{leaf_after, AccountAt, update_accounts-AccountAt}

module _ (x : External) where
  -- The diff is a pair of maps, and so is the slot diff of each address.
  pub record IsDiff (p : HashedPostState) : Type 0 where
    pub accounts_keyed : IsKeyed p.accounts
    pub storages_keyed : IsKeyed p.storages
    pub slots_keyed :
        (a : ℕ) (st : HashedStorage) → lookup a p.storages ≡ some st → IsKeyed st.storage

  -- The root that the second loop uses is that of the trie which the first loop left.
  root-StorageAt :
      (tries mid : Table x.CachedTrie) (roots : Table ℕ) (a : ℕ) (o : Option HashedStorage)
      → StorageAt x tries [] mid roots a o
      → root_or_trie x (lookup a roots) (lookup a mid) ≡ root_of_trie x (lookup a mid)
  unfolding lookup
  root-StorageAt tries mid roots a none s = rw s.1
  root-StorageAt tries mid roots a (some st) (t, e, p, q) = rw (q, p)

module _ (x : External) (laws : TrieLaws x) (codec : CodecLaws x.account_codec) where
  pub update-StorageAt-AccountAt :
      (s s' : Risc0ZkvmTrie x) (p : HashedPostState) (a : ℕ)
      → IsDiff x p
      → update x s p ≡ ok s'
      → (mid : Table x.CachedTrie) × (roots : Table ℕ) × StorageAt x s.storage_tries [] mid roots a
          (lookup a p.storages)
        × AccountAt x roots (record s { storage_tries = mid }) s' a (lookup a p.accounts)
  unfolding update
  update-StorageAt-AccountAt s s' p a d h =
      let (r, e, q) =
        >>=-eq-ok (update_storages x s.storage_tries [] (sorted_by_key p.storages)) _ h in
      (
        r.0,
        r.1,
        subst (StorageAt x s.storage_tries [] r.0 r.1 a) (lookup-sorted_by_key a p.storages) (
            update_storages-StorageAt x (sorted_by_key p.storages) s.storage_tries [] r.0 r.1 a
              (sorted_by_key-IsKeyed p.storages d.storages_keyed) e),
        update_accounts-AccountAt x laws codec r.1 p.accounts (record s { storage_tries = r.0 }) s'
            a d.accounts_keyed q,
      )

  -- What the address's entry in the storage diff makes of its trie.
  abbrev pub TrieAfter : Risc0ZkvmTrie x → ℕ → Option HashedStorage → Option x.CachedTrie → Type 0
  TrieAfter s a none trie = trie ≡ lookup a s.storage_tries
  TrieAfter s a (some st) trie =
      (t : x.CachedTrie) × (update_storage x (entry_or_default x a s.storage_tries) st ≡ ok t)
      × (trie ≡ some t)

  StorageAt-TrieAfter :
      (s : Risc0ZkvmTrie x) (mid : Table x.CachedTrie) (roots : Table ℕ) (a : ℕ)
      (o : Option HashedStorage)
      → StorageAt x s.storage_tries [] mid roots a o
      → TrieAfter s a o (lookup a mid)
  StorageAt-TrieAfter s mid roots a none st = st.0
  StorageAt-TrieAfter s mid roots a (some storage) (t, applied, held, _) = (t, applied, held)

  -- An account with a trie: gone if both are empty, and else kept with it.
  abbrev pub IsGoneOrKept : Risc0ZkvmTrie x → ℕ → Account → Option x.CachedTrie → Type 0
  IsGoneOrKept s' a acct trie =
      ((x.account_is_empty acct ≡ true)
        × (root_of_trie x trie ≡ empty_root)
        × (get_rlp x x.account_codec s'.state_trie a ≡ ok none)
        × (lookup a s'.storage_tries ≡ none))
      ⊎ (((x.account_is_empty acct ≡ false) ⊎ (root_of_trie x trie ≢ empty_root))
          × (get_rlp x x.account_codec s'.state_trie a
              ≡ ok (some (trie_account x acct (root_of_trie x trie))))
          × (lookup a s'.storage_tries ≡ trie))

  AccountAt-IsGoneOrKept :
      (roots : Table ℕ) (u s' : Risc0ZkvmTrie x) (a : ℕ) (acct : Account)
      → root_or_trie x (lookup a roots) (lookup a u.storage_tries)
        ≡ root_of_trie x (lookup a u.storage_tries)
      → AccountAt x roots u s' a (some (some acct))
      → IsGoneOrKept s' a acct (lookup a u.storage_tries)
  AccountAt-IsGoneOrKept roots u s' a acct same (leaf, trie) =
      let root = root_or_trie x (lookup a roots) (lookup a u.storage_tries) in
      elim (Bool-cases (x.account_is_empty acct)) [
        | inl empty ↦ elim (Bool-cases (root == empty_root)) [
          | inl zero_root ↦ inl (
            empty,
            sym same ∙ (==_iff root empty_root).0 zero_root,
            rw (empty, zero_root) at leaf,
            rw (empty, zero_root) at trie,
          )
          | inr full ↦ inr (
            inr (λ none_held. ground (arith, full, same, none_held)),
            (rw (empty, full) at leaf) ∙ ap (λ r. ok (some (trie_account x acct r))) same,
            rw (empty, full) at trie,
          )
        ]
        | inr used ↦ inr (
          inl used,
          (rw used at leaf) ∙ ap (λ r. ok (some (trie_account x acct r))) same,
          rw used at trie,
        )
      ]

  -- After an update that succeeds, by a diff of maps, an account of the diff is as its new values
  -- and its storage trie, which is the one before with the address's entry in the storage diff
  -- applied: exactly if the account is empty and the trie has the empty root, or is not there, leaf
  -- and trie are gone, and otherwise the trie is kept and the leaf holds the new nonce, balance and
  -- code hash and the root of the trie.
  pub leaf-update :
      (s s' : Risc0ZkvmTrie x) (p : HashedPostState) (a : ℕ) (acct : Account)
      → IsDiff x p
      → update x s p ≡ ok s'
      → lookup a p.accounts ≡ some (some acct)
      → (trie : Option x.CachedTrie) × TrieAfter s a (lookup a p.storages) trie
        × IsGoneOrKept s' a acct trie
  leaf-update s s' p a acct d h e =
      let (mid, roots, st, at_a) = update-StorageAt-AccountAt s s' p a d h in
      (
        lookup a mid,
        StorageAt-TrieAfter s mid roots a (lookup a p.storages) st,
        AccountAt-IsGoneOrKept roots (record s { storage_tries = mid }) s' a acct
            (root-StorageAt x s.storage_tries mid roots a (lookup a p.storages) st) (rw e at at_a),
      )

  -- After an update that succeeds, by a diff of maps, an account that the diff deletes has neither
  -- a leaf nor a storage trie.
  pub deletion-update :
      (s s' : Risc0ZkvmTrie x) (p : HashedPostState) (a : ℕ)
      → IsDiff x p
      → update x s p ≡ ok s'
      → lookup a p.accounts ≡ some none
      → (get_rlp x x.account_codec s'.state_trie a ≡ ok none) × (lookup a s'.storage_tries ≡ none)
  deletion-update s s' p a d h e =
      let (mid, roots, st, at_a) = update-StorageAt-AccountAt s s' p a d h in rw e at at_a

  -- In an update that succeeds, by a diff of maps, an address that the diff does not name keeps its
  -- leaf and its storage trie.
  pub update_frame :
      (s s' : Risc0ZkvmTrie x) (p : HashedPostState) (a : ℕ)
      → IsDiff x p
      → update x s p ≡ ok s'
      → lookup a p.accounts ≡ none
      → lookup a p.storages ≡ none
      → (get_rlp x x.account_codec s'.state_trie a ≡ get_rlp x x.account_codec s.state_trie a)
        × (lookup a s'.storage_tries ≡ lookup a s.storage_tries)
  update_frame s s' p a d h e f =
      let (mid, roots, st, at_a) = update-StorageAt-AccountAt s s' p a d h in
      let kept_at : AccountAt x roots (record s { storage_tries = mid }) s' a none = rw e at at_a in
      let stored : StorageAt x s.storage_tries [] mid roots a none = rw f at st in
      (kept_at.0, kept_at.1 ∙ stored.0)

  trie_of_AccountAt :
      (roots : Table ℕ) (u s' : Risc0ZkvmTrie x) (a : ℕ) (o : Option (Option Account))
      → (t : x.CachedTrie) → AccountAt x roots u s' a o
      → lookup a s'.storage_tries ≡ some t
      → lookup a u.storage_tries ≡ some t
  trie_of_AccountAt roots u s' a none t (leaf, trie) e = sym trie ∙ e
  trie_of_AccountAt roots u s' a (some m) t (leaf, trie) e =
      elim (Option-cases (leaf_after x (lookup a roots) (lookup a u.storage_tries) m)) [
        | inl gone ↦ let nothing = (rw gone at trie) in cc (sym e ∙ nothing)
        | inr (l, held) ↦ sym (rw held at trie) ∙ e
      ]

  -- After an update that succeeds, by a diff of maps, a slot of a storage trie that is kept, at an
  -- address whose storage the diff names, reads as the diff says: absent for zero, the encoding of
  -- a new value, and otherwise as before, or as absent if the storage was wiped.
  pub slot-update :
      (s s' : Risc0ZkvmTrie x) (p : HashedPostState) (a j : ℕ) (st : HashedStorage)
      → (t : x.CachedTrie) → IsDiff x p
      → update x s p ≡ ok s'
      → lookup a p.storages ≡ some st
      → lookup a s'.storage_tries ≡ some t
      → x.trie_get t j
        ≡ slot_after x
            (lookup j st.storage)
            (if st.wiped then ok none else x.trie_get (entry_or_default x a s.storage_tries) j)
  slot-update s s' p a j st t d h e f =
      let (mid, roots, stored, at_a) = update-StorageAt-AccountAt s s' p a d h in
      let (u, applied, held, _) = rw e at stored in
      let u_kept =
        trie_of_AccountAt roots (record s { storage_tries = mid }) s' a (lookup a p.accounts) t at_a
          f in
      get-update_storage x laws (entry_or_default x a s.storage_tries) t st j (d.slots_keyed a st e)
        (ground (arith, applied, held, u_kept))

  -- After an update that succeeds, by a diff of maps, `storage` of an address that keeps its trie
  -- returns the value that the diff has for the slot.
  pub storage-update :
      (word : CodecLaws x.u256_codec) (s s' : Risc0ZkvmTrie x) (p : HashedPostState)
      → (address : Bytes) (index value : ℕ) (st : HashedStorage) (t : x.CachedTrie) → IsDiff x p
      → update x s p ≡ ok s'
      → lookup (x.keccak256 address) p.storages ≡ some st
      → lookup (x.keccak256 address) s'.storage_tries ≡ some t
      → lookup (x.keccak256 (to_be_bytes 32 index)) st.storage ≡ some value
      → storage x s' address index ≡ ok value
  unfolding storage
  storage-update word s s' p address index value st t d h e f v =
      let j = x.keccak256 (to_be_bytes 32 index) in
      let read = rw v at (slot-update s s' p (x.keccak256 address) j st t d h e f) in
      rw (f, read) (ground (arith, word.decode-encode value))
