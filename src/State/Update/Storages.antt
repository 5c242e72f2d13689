-- ===== src/State/Update/Storages.antt =====
-- The first loop of `update`: one trie and one root for each address of the diff.
use reth_proofs.Prelude.{
  ℕ, ◌≡◌, subst, Option, none, some, [], ◌∷◌, arith, ◌==◌, ◌≢◌, inl, inr, Bool-cases, ==_iff,
}
use reth_proofs.Outcome.{ok, >>=-eq-ok}
use reth_proofs.Table.{Table, lookup, insert, IsKeyed}
use reth_proofs.Table.Laws.{lookup-insert}
use reth_proofs.External.{External}
use reth_proofs.State.Update.{HashedStorage, entry_or_default, update_storage, update_storages}

module _ (x : External) where
  -- What the loop leaves at one address, given the address's entry in the diff.
  abbrev pub StorageAt :
      (tries : Table x.CachedTrie) (roots : Table ℕ)
      → (tries' : Table x.CachedTrie) (roots' : Table ℕ) → ℕ
      → Option HashedStorage
      → Type 0
  StorageAt tries roots tries' roots' a none =
      (lookup a tries' ≡ lookup a tries) × (lookup a roots' ≡ lookup a roots)
  StorageAt tries roots tries' roots' a (some storage) =
      (t : x.CachedTrie) × (update_storage x (entry_or_default x a tries) storage ≡ ok t)
      × (lookup a tries' ≡ some t)
      × (lookup a roots' ≡ some (x.hash_slow t))

  entry_or_default-insert :
      (k a : ℕ) (t : x.CachedTrie) (tries : Table x.CachedTrie)
      → k ≢ a
      → entry_or_default x a (insert k t tries) ≡ entry_or_default x a tries
  unfolding entry_or_default
  entry_or_default-insert k a t tries h = ground (arith, lookup-insert k a t tries)

  StorageAt-insert :
      (k a r : ℕ) (t : x.CachedTrie) (tries : Table x.CachedTrie) (roots : Table ℕ)
      → (tries' : Table x.CachedTrie) (roots' : Table ℕ) (o : Option HashedStorage) → k ≢ a
      → StorageAt (insert k t tries) (insert k r roots) tries' roots' a o
      → StorageAt tries roots tries' roots' a o
  StorageAt-insert k a r t tries roots tries' roots' none h s =
      ground (arith, lookup-insert k a t tries, lookup-insert k a r roots)
  StorageAt-insert k a r t tries roots tries' roots' (some st) h (u, e, p, q) =
      (u, rw (entry_or_default-insert k a t tries h) at e, p, q)

  -- At the address of the first entry, which no later entry changes.
  StorageAt-first :
      (k : ℕ) (storage : HashedStorage) (t : x.CachedTrie) (tries : Table x.CachedTrie)
      → (roots : Table ℕ) (tries' : Table x.CachedTrie) (roots' : Table ℕ)
      → (o : Option HashedStorage) → o ≡ none
      → update_storage x (entry_or_default x k tries) storage ≡ ok t
      → StorageAt (insert k t tries) (insert k (x.hash_slow t) roots) tries' roots' k o
      → StorageAt tries roots tries' roots' k (some storage)
  StorageAt-first k storage t tries roots tries' roots' none h e s = (
    t,
    e,
    ground (arith, lookup-insert k k t tries),
    ground (arith, lookup-insert k k (x.hash_slow t) roots),
  )
  StorageAt-first k storage t tries roots tries' roots' (some _) h e s = cc

  pub update_storages-StorageAt :
      (storages : Table HashedStorage) (tries : Table x.CachedTrie) (roots : Table ℕ)
      → (tries' : Table x.CachedTrie) (roots' : Table ℕ) (a : ℕ) → IsKeyed storages
      → update_storages x tries roots storages ≡ ok (tries', roots')
      → StorageAt tries roots tries' roots' a (lookup a storages)
  unfolding update_storages lookup
  update_storages-StorageAt [] tries roots tries' roots' a d h = ground arith
  update_storages-StorageAt ((k, storage) ∷ storages) tries roots tries' roots' a d h =
      let (t, e, q) = >>=-eq-ok (update_storage x (entry_or_default x k tries) storage) _ h in
      let tries₁ = insert k t tries in
      let roots₁ = insert k (x.hash_slow t) roots in
      elim (Bool-cases (k == a)) [
        | inl hit ↦ rw hit (
            subst (λ j. StorageAt tries roots tries' roots' j (some storage)) ((==_iff k a).0 hit)
              (StorageAt-first k storage t tries roots tries' roots' (lookup k storages) d.0 e
                (update_storages-StorageAt storages tries₁ roots₁ tries' roots' k d.1 q)))
        | inr miss ↦ rw miss (
            StorageAt-insert k a (x.hash_slow t) t tries roots tries' roots' (lookup a storages)
              (ground arith)
              (update_storages-StorageAt storages tries₁ roots₁ tries' roots' a d.1 q))
      ]
