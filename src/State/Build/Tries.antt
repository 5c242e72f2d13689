-- ===== src/State/Build/Tries.antt =====
-- The storage tries that `build_validated_tries` builds from the roots that it detected.
use reth_proofs.Prelude.{
  ℕ, ◌≡◌, sym, subst, ◌∙◌, [], ◌∷◌, arith, ◌==◌, inl, inr, Bool-cases, ==_iff, All, ◌⊎◌,
}
use reth_proofs.Outcome.{ok, unwrap, >>=-eq-ok, unwrap-eq-ok}
use reth_proofs.Table.{Table, lookup, insert, IsKeyed}
use reth_proofs.Table.Laws.{lookup-insert, insert-IsKeyed}
use reth_proofs.External.{Bytes, TrieAccount, External, TrieLaws}
use reth_proofs.State.Mpt.{MptNode}
use reth_proofs.State.Validate.Synced.{IsSynced, IsSyncedAt}
use reth_proofs.State.Build.{build_storage_tries}
use reth_proofs.State.Build.Detected.{IsDeclared, HasKey}

module _ (x : External) (st : MptNode x TrieAccount) where
  HasKey-insert :
      (a b : ℕ) (t : x.CachedTrie) (tries : Table x.CachedTrie)
      → (a ≡ b) ⊎ HasKey x st b tries
      → HasKey x st b (insert a t tries)
  HasKey-insert a b t tries k = elim (Bool-cases (a == b)) [
    | inl hit ↦ (t, lookup-insert a b t tries ∙ rw hit)
    | inr miss ↦ elim k [
      | inl same ↦ absurd (ground (arith, same, miss))
      | inr (v, e) ↦ (v, lookup-insert a b t tries ∙ rw miss e)
    ]
  ]

  insert-IsSynced :
      (a : ℕ) (t : x.CachedTrie) (tries : Table x.CachedTrie)
      → IsSyncedAt x st a t
      → IsSynced x st tries
      → IsSynced x st (insert a t tries)
  insert-IsSynced a t tries p synced b u e = elim (Bool-cases (a == b)) [
    | inl hit ↦
        let same : t ≡ u = ground (arith, lookup-insert a b t tries, hit) in
        rw (← same, ← (==_iff a b).0 hit) p
    | inr miss ↦ synced b u (ground (arith, lookup-insert a b t tries, miss))
  ]

  -- The table gets a trie for each root, whose hash is the root; the other entries stay.
  pub build_storage_tries_lem :
      (laws : TrieLaws x) (node_map : Table Bytes) (detected : Table ℕ)
      → (tries tries' : Table x.CachedTrie) → All (IsDeclared x st) detected
      → IsSynced x st tries
      → IsKeyed tries
      → build_storage_tries x node_map tries detected ≡ ok tries'
      → IsSynced x st tries'
        × IsKeyed tries'
        × ((a : ℕ) → HasKey x st a detected ⊎ HasKey x st a tries → HasKey x st a tries')
  unfolding build_storage_tries lookup
  build_storage_tries_lem laws node_map [] tries tries' all synced keyed h =
      let same : tries ≡ tries' = ground (arith, h) in
      subst Built same (synced, keyed, λ a k. elim k [ inl (v, e) ↦ cc | inr held ↦ held ])
    where
      Built : Table x.CachedTrie → Type 0
      Built m =
          IsSynced x st m
          × IsKeyed m
          × ((a : ℕ) → HasKey x st {V = ℕ} a [] ⊎ HasKey x st a tries → HasKey x st a m)
  build_storage_tries_lem laws node_map ((a, root) ∷ detected) tries tries' all synced keyed h =
      let hydrated = x.hydrate_from_rlp_map (x.trie_from_digest root) node_map in
      let (t, e, q) = >>=-eq-ok (unwrap hydrated) _ h in
      let at_root =
        laws.hash-hydrate (x.trie_from_digest root) t node_map (unwrap-eq-ok hydrated e)
        ∙ laws.hash-from_digest root in
      let (acct, found, declared) = all.0 in
      let next = insert a t tries in
      let (synced', keyed', keys') =
        build_storage_tries_lem laws node_map detected next tries' all.1
          (insert-IsSynced a t tries (acct, found, declared ∙ sym at_root) synced)
          (insert-IsKeyed a t tries keyed) q in
      (
        synced',
        keyed',
        λ b k. keys' b (elim k [
          | inl (v, l) ↦ elim (Bool-cases (a == b)) [
            | inl hit ↦ inr (HasKey-insert a b t tries (inl ((==_iff a b).0 hit)))
            | inr miss ↦ inl (v, rw miss at l)
          ]
          | inr held ↦ inr (HasKey-insert a b t tries (inr held))
        ]),
      )
