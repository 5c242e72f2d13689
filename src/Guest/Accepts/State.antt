-- ===== src/Guest/Accepts/State.antt =====
-- What the guest's success says of the state whose root the block claims, account by account.
use reth_proofs.Prelude.{ℕ, ◌≡◌, refl, Option, none, some, inl, inr, Option-cases}
use reth_proofs.Outcome.{ok}
use reth_proofs.Table.{lookup}
use reth_proofs.Table.Laws.{All-lookup}
use reth_proofs.External.{Bytes, Account, External, TrieLaws, CodecLaws}
use reth_proofs.State.{Risc0ZkvmTrie}
use reth_proofs.State.Mpt.{get_rlp}
use reth_proofs.State.Validate.Synced.{IsSyncedAt, IsSynced}
use reth_proofs.State.Update.{HashedStorage, HashedPostState, update}
use reth_proofs.State.Update.Refinement.{
  TrieAfter, IsGoneOrKept, leaf-update, IsDiff, deletion-update, update_frame,
}
use reth_proofs.State.Update.Synced.{CoversStorages, update-IsSynced}
use reth_proofs.Core.{Alloy}
use reth_proofs.Core.Input.{ZkvmInput}
use reth_proofs.Guest.{Zkvm, guest_handler}
use reth_proofs.Guest.Accepts.{IsRooted, db_of}
use reth_proofs.Guest.Accepts.Whole.{block_of, guest_handler_iff}

module _ (x : External) (laws : TrieLaws x) (codec : CodecLaws x.account_codec) where
  -- What the entries of an address in a diff make of its leaf and of its storage trie.
  abbrev pub AccountsFor :
      Risc0ZkvmTrie x
      → Risc0ZkvmTrie x
      → ℕ
      → Option HashedStorage
      → Option (Option Account)
      → Type 0
  AccountsFor s s' a st none =
      (get_rlp x x.account_codec s'.state_trie a ≡ get_rlp x x.account_codec s.state_trie a)
      × (lookup a s'.storage_tries ≡ lookup a s.storage_tries)
  AccountsFor s s' a st (some none) =
      (get_rlp x x.account_codec s'.state_trie a ≡ ok none) × (lookup a s'.storage_tries ≡ none)
  AccountsFor s s' a st (some (some acct)) =
      (trie : Option x.CachedTrie) × TrieAfter x laws codec s a st trie
      × IsGoneOrKept x laws codec s' a acct trie

  update-AccountsFor :
      (s s' : Risc0ZkvmTrie x) (p : HashedPostState) (a : ℕ)
      → IsDiff x p
      → CoversStorages x laws codec p
      → update x s p ≡ ok s'
      → AccountsFor s s' a (lookup a p.storages) (lookup a p.accounts)
  update-AccountsFor s s' p a d covers h = by_account (lookup a p.accounts) refl
    where
      untouched : lookup a p.accounts ≡ none → lookup a p.storages ≡ none
      untouched n = elim (Option-cases (lookup a p.storages)) [
        | inl absent ↦ absent
        | inr (st, f) ↦ cc (covers a st f).1
      ]

      by_account :
          (o : Option (Option Account))
          → lookup a p.accounts ≡ o
          → AccountsFor s s' a (lookup a p.storages) o
      by_account none n = update_frame x laws codec s s' p a d h n (untouched n)
      by_account (some none) n = deletion-update x laws codec s s' p a d h n
      by_account (some (some acct)) n = leaf-update x laws codec s s' p a acct d h n

  module _ (y : Alloy) (z : Zkvm x y) where
    -- If the guest succeeds, and the diffs of executions are maps in which each storage diff comes
    -- with an account diff, then the input decodes to one whose state has the root of its first
    -- ancestor and is synced, the block executes on that state, and there is a synced state with
    -- the root of the block's header in which every account is as the diff of the execution says:
    -- kept with its storage trie if it is not named, gone with it if it is deleted, and else, with
    -- the storage trie that the diff makes of the one before, gone exactly if the account is empty
    -- and the trie has the empty root or is not there, and otherwise kept with that trie, with the
    -- new nonce, balance and code hash and the root of the trie.
    pub guest_handler-state :
        (buffer : Bytes)
        → ((o : z.BlockExecutionOutput) → IsDiff x (z.from_bundle_state o))
        → ((o : z.BlockExecutionOutput) → CoversStorages x laws codec (z.from_bundle_state o))
        → guest_handler x y z buffer ≡ ok tt
        → (input : ZkvmInput x y) × (z.deserialize buffer ≡ some input)
          × IsRooted x y input.ancestor_headers.headers
              (x.hash_slow input.ethereum_state.state_trie.inner)
          × IsSynced x input.ethereum_state.state_trie input.ethereum_state.storage_tries
          × (output : z.BlockExecutionOutput) × (z.execute (db_of x y input) (block_of x y z input)
              ≡ ok output)
          × (s : Risc0ZkvmTrie x) × (x.hash_slow s.state_trie.inner
              ≡ input.current_block.body.header.state_root)
          × IsSynced x s.state_trie s.storage_tries
          × ((a : ℕ)
              → AccountsFor input.ethereum_state s a
                  (lookup a (z.from_bundle_state output).storages)
                  (lookup a (z.from_bundle_state output).accounts))
    guest_handler-state buffer diffs covers accepted =
        let (input, e, last, (chain, found, rooted, tries, hashed), signed, passes, runs) =
          (guest_handler_iff x y z buffer).0 accepted in
        let (output, ran, posted, s, updated, root) = runs in
        let pre = input.ethereum_state in
        let p = z.from_bundle_state output in
        let synced : IsSynced x pre.state_trie pre.storage_tries = λ a t f.
          All-lookup (λ (b, u). IsSyncedAt x pre.state_trie b u) pre.storage_tries a t tries f in
        (
          input,
          e,
          rooted,
          synced,
          output,
          ran,
          s,
          root,
          update-IsSynced x laws codec pre s p (diffs output) (covers output) synced updated,
          λ a. update-AccountsFor pre s p a (diffs output) (covers output) updated,
        )
