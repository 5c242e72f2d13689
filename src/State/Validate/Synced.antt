-- ===== src/State/Validate/Synced.antt =====
-- What `validate_storage_tries` checks, as a property of the two parts of the state.
use reth_proofs.Prelude.{ℕ, ◌≡◌, refl, ◌↔◌, some, [], ◌∷◌, arith, All}
use reth_proofs.Outcome.{ok, >>=-eq-ok}
use reth_proofs.Table.{Table, lookup, IsKeyed}
use reth_proofs.Table.Laws.{All-lookup, lookup-All}
use reth_proofs.External.{TrieAccount, External}
use reth_proofs.State.Mpt.{MptNode, get_rlp}
use reth_proofs.State.Validate.{validate_storage_trie, validate_storage_tries}

module _ (x : External) where
  -- The state trie has an account at the address, and its storage root is the hash of the trie.
  abbrev pub IsSyncedAt : MptNode x TrieAccount → ℕ → x.CachedTrie → Type 0
  IsSyncedAt state_trie a t =
      (acct : TrieAccount) × (get_rlp x x.account_codec state_trie a ≡ ok (some acct))
      × (acct.storage_root ≡ x.hash_slow t)

  abbrev pub IsSynced : MptNode x TrieAccount → Table x.CachedTrie → Type 0
  IsSynced state_trie tries =
      (a : ℕ) (t : x.CachedTrie) → lookup a tries ≡ some t → IsSyncedAt state_trie a t

  validate_storage_trie_iff :
      (st : MptNode x TrieAccount) (a : ℕ) (t : x.CachedTrie)
      → (validate_storage_trie x st a t ≡ ok tt) ↔ IsSyncedAt st a t
  unfolding validate_storage_trie
  validate_storage_trie_iff st a t = (λ h. ground arith, λ (acct, e, same). rw e (ground arith))

  pub validate_storage_tries_iff :
      (st : MptNode x TrieAccount) (tries : Table x.CachedTrie)
      → (validate_storage_tries x st tries ≡ ok tt) ↔ All (λ (a, t). IsSyncedAt st a t) tries
  unfolding validate_storage_tries
  validate_storage_tries_iff st [] = (λ h. tt, λ h. refl)
  validate_storage_tries_iff st ((a, t) ∷ tries) =
      let step = validate_storage_trie_iff st a t in
      let rest = validate_storage_tries_iff st tries in
      (
        λ h. let (u, e, q) = >>=-eq-ok (validate_storage_trie x st a t) _ h in (step.0 e, rest.0 q),
        λ (p, ps). rw (step.1 p) (rest.1 ps),
      )

  -- The validator accepts exactly the synced states.
  pub validate_storage_tries-IsSynced :
      (st : MptNode x TrieAccount) (tries : Table x.CachedTrie)
      → IsKeyed tries
      → (validate_storage_tries x st tries ≡ ok tt) ↔ IsSynced st tries
  validate_storage_tries-IsSynced st tries d =
      let all = validate_storage_tries_iff st tries in
      (
        λ h a t e. All-lookup (λ (b, u). IsSyncedAt st b u) tries a t (all.0 h) e,
        λ s. all.1 (lookup-All (λ (b, u). IsSyncedAt st b u) tries d s),
      )
