-- ===== src/State/Update/Iteration.antt =====
-- The order in which the maps of a diff are iterated, which differs from one run to the next.
use reth_proofs.Prelude.{
  ℕ, ◌≡◌, refl, ap, sym, subst, ◌∙◌, Bool, Option, none, some, [], arith, if◌then◌else◌,
}
use reth_proofs.Outcome.{ok}
use reth_proofs.Table.{Table, lookup, IsKeyed}
use reth_proofs.Table.Ordered.{IsSame}
use reth_proofs.External.{Account, External, TrieLaws, CodecLaws}
use reth_proofs.State.{Risc0ZkvmTrie}
use reth_proofs.State.Mpt.{get_rlp}
use reth_proofs.State.Update.{
  HashedStorage, HashedPostState, sorted_by_key, apply_slots, entry_or_default, update_storage,
  update,
}
use reth_proofs.State.Update.Sorting.{sorted_by_key-IsSame}
use reth_proofs.State.Update.Storages.{StorageAt}
use reth_proofs.State.Update.Accounts.{leaf_after, kept, AccountAt}
use reth_proofs.State.Update.Refinement.{IsDiff, update-StorageAt-AccountAt}

-- The same storage diff of an address, or none in both.
abbrev pub IsSameStorage : Option HashedStorage → Option HashedStorage → Type 0
IsSameStorage none none = Unit
IsSameStorage none (some _) = ⊥
IsSameStorage (some _) none = ⊥
IsSameStorage (some st) (some st') = (st.wiped ≡ st'.wiped) × IsSame st.storage st'.storage

pub IsSameStorage-refl : (o : Option HashedStorage) → IsSameStorage o o
IsSameStorage-refl none = tt
IsSameStorage-refl (some st) = (refl, λ k. refl)

-- Two diffs that are equal as `HashMap`s, whatever the order of their entries.
pub record IsSameDiff (p p' : HashedPostState) : Type 0 where
  pub accounts : IsSame p.accounts p'.accounts
  pub storages : (a : ℕ) → IsSameStorage (lookup a p.storages) (lookup a p'.storages)

module _ (x : External) where
  abbrev IsSlotKeyed : Option HashedStorage → Type 0
  IsSlotKeyed none = Unit
  IsSlotKeyed (some st) = IsKeyed st.storage

  IsDiff-IsSlotKeyed :
      (o : Option HashedStorage)
      → ((st : HashedStorage) → o ≡ some st → IsKeyed st.storage)
      → IsSlotKeyed o
  IsDiff-IsSlotKeyed none keyed = tt
  IsDiff-IsSlotKeyed (some st) keyed = keyed st refl

  update_storage-IsSame :
      (t : x.CachedTrie) (st st' : HashedStorage)
      → IsKeyed st.storage
      → IsKeyed st'.storage
      → st.wiped ≡ st'.wiped
      → IsSame st.storage st'.storage
      → update_storage x t st ≡ update_storage x t st'
  unfolding update_storage
  update_storage-IsSame t st st' keyed keyed' wiped same =
      let started = λ (w : Bool). if w then x.trie_clear t else t in
      ap (λ w. apply_slots x (started w) (sorted_by_key st.storage)) wiped
      ∙ ap (apply_slots x (started st'.wiped))
          (sorted_by_key-IsSame st.storage st'.storage keyed keyed' same)

  -- The first loop leaves the same trie and the same root at the address.
  StorageAt-IsSame :
      (tries mid mid' : Table x.CachedTrie) (roots roots' : Table ℕ) (a : ℕ)
      → (o o' : Option HashedStorage) → IsSlotKeyed o
      → IsSlotKeyed o'
      → IsSameStorage o o'
      → StorageAt x tries [] mid roots a o
      → StorageAt x tries [] mid' roots' a o'
      → (lookup a mid ≡ lookup a mid') × (lookup a roots ≡ lookup a roots')
  StorageAt-IsSame tries mid mid' roots roots' a none none keyed keyed' same at at' =
      (at.0 ∙ sym at'.0, at.1 ∙ sym at'.1)
  StorageAt-IsSame tries mid mid' roots roots' a none (some st') keyed keyed' same at at' =
      absurd same
  StorageAt-IsSame tries mid mid' roots roots' a (some st) none keyed keyed' same at at' =
      absurd same
  StorageAt-IsSame tries mid mid' roots roots' a (some st) (some st') keyed keyed' (wiped, same)
        (t, e, held, root) (t', e', held', root') =
      let made =
        update_storage-IsSame (entry_or_default x a tries) st st' keyed keyed' wiped same in
      let one : t ≡ t' = ground (arith, sym e ∙ made ∙ e') in
      (held ∙ ap some one ∙ sym held', root ∙ ap (λ u. some (x.hash_slow u)) one ∙ sym root')

  -- The second loop leaves the same leaf and the same trie.
  AccountAt-IsSame :
      (roots roots' : Table ℕ) (u u' s' s'' : Risc0ZkvmTrie x) (a : ℕ)
      → (o : Option (Option Account)) → u.state_trie ≡ u'.state_trie
      → lookup a roots ≡ lookup a roots'
      → lookup a u.storage_tries ≡ lookup a u'.storage_tries
      → AccountAt x roots u s' a o
      → AccountAt x roots' u' s'' a o
      → (get_rlp x x.account_codec s'.state_trie a ≡ get_rlp x x.account_codec s''.state_trie a)
        × (lookup a s'.storage_tries ≡ lookup a s''.storage_tries)
  AccountAt-IsSame roots roots' u u' s' s'' a none trie root tries at at' =
      (at.0 ∙ ap (λ t. get_rlp x x.account_codec t a) trie ∙ sym at'.0, at.1 ∙ tries ∙ sym at'.1)
  AccountAt-IsSame roots roots' u u' s' s'' a (some m) trie root tries at at' =
      let leaf : leaf_after x (lookup a roots) (lookup a u.storage_tries) m
          ≡ leaf_after x (lookup a roots') (lookup a u'.storage_tries) m =
        ap (λ r. leaf_after x r (lookup a u.storage_tries) m) root
        ∙ ap (λ t. leaf_after x (lookup a roots') t m) tries in
      (
        at.0 ∙ ap ok leaf ∙ sym at'.0,
        at.1
            ∙ ap (λ l. kept x l (lookup a u.storage_tries)) leaf
            ∙ ap (kept x (leaf_after x (lookup a roots') (lookup a u'.storage_tries) m)) tries
            ∙ sym at'.1,
      )

module _ (x : External) (laws : TrieLaws x) (codec : CodecLaws x.account_codec) where
  -- The state after a block does not depend on the order in which the maps of its diff are iterated:
  -- of two updates by diffs that are the same maps, both of which succeed, every address has the same
  -- leaf and the same storage trie.
  pub update-IsSameDiff :
      (s s' s'' : Risc0ZkvmTrie x) (p p' : HashedPostState) (a : ℕ)
      → IsDiff x p
      → IsDiff x p'
      → IsSameDiff p p'
      → update x s p ≡ ok s'
      → update x s p' ≡ ok s''
      → (get_rlp x x.account_codec s'.state_trie a ≡ get_rlp x x.account_codec s''.state_trie a)
        × (lookup a s'.storage_tries ≡ lookup a s''.storage_tries)
  update-IsSameDiff s s' s'' p p' a d d' same h h' =
      let (mid, roots, stored, at_a) = update-StorageAt-AccountAt x laws codec s s' p a d h in
      let (mid', roots', stored', at_a') =
        update-StorageAt-AccountAt x laws codec s s'' p' a d' h' in
      let (tries, root) =
        StorageAt-IsSame x s.storage_tries mid mid' roots roots' a (lookup a p.storages)
          (lookup a p'.storages) (IsDiff-IsSlotKeyed x (lookup a p.storages) (d.slots_keyed a))
          (IsDiff-IsSlotKeyed x (lookup a p'.storages) (d'.slots_keyed a)) (same.storages a) stored
          stored' in
      let u = record s { storage_tries = mid } in
      let u' = record s { storage_tries = mid' } in
      AccountAt-IsSame x roots roots' u u' s' s'' a (lookup a p'.accounts) refl root tries
        (subst (AccountAt x roots u s' a) (same.accounts a) at_a) at_a'
