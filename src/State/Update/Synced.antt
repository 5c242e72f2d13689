-- ===== src/State/Update/Synced.antt =====
-- The state trie and the storage tries against each other, after `update`.
use reth_proofs.Prelude.{
  ap, true, ◌⊎◌, ℕ, ◌≡◌, refl, sym, ◌∙◌, none, some, Option, inl, inr, Option-cases,
}
use reth_proofs.Outcome.{ok}
use reth_proofs.Table.{lookup}
use reth_proofs.External.{Account, External, TrieLaws, CodecLaws}
use reth_proofs.State.{Risc0ZkvmTrie}
use reth_proofs.State.Mpt.{get_rlp}
use reth_proofs.State.Validate.Synced.{IsSyncedAt, IsSynced}
use reth_proofs.State.Update.{HashedStorage, HashedPostState, trie_account, root_of_trie, update}
use reth_proofs.State.Update.Refinement.{IsDiff, leaf-update, deletion-update, update_frame}

module _ (x : External) (laws : TrieLaws x) (codec : CodecLaws x.account_codec) where
  -- The leaf against the storage trie that is left, whatever the trie was before.
  leaf-update_cases :
      (s s' : Risc0ZkvmTrie x) (p : HashedPostState) (a : ℕ) (acct : Account)
      → IsDiff x p
      → update x s p ≡ ok s'
      → lookup a p.accounts ≡ some (some acct)
      → ((get_rlp x x.account_codec s'.state_trie a ≡ ok none)
          × (lookup a s'.storage_tries ≡ none)
          × (x.account_is_empty acct ≡ true))
        ⊎ (get_rlp x x.account_codec s'.state_trie a
            ≡ ok (some (trie_account x acct (root_of_trie x (lookup a s'.storage_tries)))))
  leaf-update_cases s s' p a acct d h e =
      let (trie, _, verdict) = leaf-update x laws codec s s' p a acct d h e in
      elim verdict [
        | inl (empty, _, leaf, gone) ↦ inl (leaf, gone, empty)
        | inr (_, leaf, same) ↦
            inr (leaf ∙ ap (λ t. ok (some (trie_account x acct (root_of_trie x t)))) (sym same))
      ]

  -- Every address with a storage diff also has an account diff.
  abbrev pub CoversStorages : HashedPostState → Type 0
  CoversStorages p =
      (a : ℕ) (st : HashedStorage)
      → lookup a p.storages ≡ some st
      → (m : Option Account) × (lookup a p.accounts ≡ some m)

  -- An update of a synced state that succeeds, by a diff of maps in which every storage diff comes
  -- with an account diff, is synced.
  pub update-IsSynced :
      (s s' : Risc0ZkvmTrie x) (p : HashedPostState)
      → IsDiff x p
      → CoversStorages p
      → IsSynced x s.state_trie s.storage_tries
      → update x s p ≡ ok s'
      → IsSynced x s'.state_trie s'.storage_tries
  update-IsSynced s s' p d covers synced h a t e = by_account (lookup a p.accounts) refl
    where
      untouched : lookup a p.accounts ≡ none → lookup a p.storages ≡ none
      untouched n = elim (Option-cases (lookup a p.storages)) [
        | inl absent ↦ absent
        | inr (st, f) ↦ cc (covers a st f).1
      ]

      by_account :
          (o : Option (Option Account)) → lookup a p.accounts ≡ o → IsSyncedAt x s'.state_trie a t
      by_account none n =
          let (same, tries) = update_frame x laws codec s s' p a d h n (untouched n) in
          let (acct, found, root) = synced a t (sym tries ∙ e) in (acct, same ∙ found, root)
      by_account (some none) n =
          let gone = deletion-update x laws codec s s' p a d h n in cc (sym e ∙ gone.1)
      by_account (some (some acct)) n = elim (leaf-update_cases s s' p a acct d h n) [
        | inl (_, gone, _) ↦ cc (sym e ∙ gone)
        | inr leaf ↦ (_, leaf, rw e)
      ]
