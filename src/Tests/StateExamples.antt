-- ===== src/Tests/StateExamples.antt =====
-- The state theorems at the example witness and diff.
use reth_proofs.Prelude.{◌≡◌, refl, some, none, Option, [], ◌∷◌, arith, All}
use reth_proofs.Outcome.{ok, panic, account_witness_todo}
use reth_proofs.Table.{lookup, IsKeyed}
use reth_proofs.Table.Laws.{All-lookup}
use reth_proofs.External.{Account, to_be_bytes}
use reth_proofs.External.Toy.{toy, toy-TrieLaws, account-CodecLaws, u256-CodecLaws, entries}
use reth_proofs.State.{Risc0ZkvmTrie}
use reth_proofs.State.Mpt.{get_rlp, hydrate, from_digest}
use reth_proofs.State.Validate.{validate_storage_trie, validate_storage_tries, validate_state_trie}
use reth_proofs.State.Validate.Synced.{IsSynced}
use reth_proofs.State.Build.{
  index_nodes, detect_storage_tries, build_storage_tries, build_validated_tries,
  from_execution_witness,
}
use reth_proofs.State.Build.Detected.{IsCovered}
use reth_proofs.State.Build.Witness.{
  from_execution_witness_lem, validators_accept, IsReadable, storage-from_execution_witness,
}
use reth_proofs.State.Read.{storage}
use reth_proofs.State.Read.Absent.{storage-update_deleted}
use reth_proofs.State.Update.{
  HashedPostState, update, update_storages, update_storage, apply_slots, apply_slot,
  entry_or_default, update_accounts, update_account, delete_account, storage_root_of, sorted_by_key,
  sort_insert,
}
use reth_proofs.State.Update.Slots.{slot_after}
use reth_proofs.State.Update.Synced.{CoversStorages, update-IsSynced}
use reth_proofs.State.Update.Iteration.{IsSameDiff, IsSameStorage-refl, update-IsSameDiff}
use reth_proofs.State.Update.Refinement.{
  IsDiff, TrieAfter, IsGoneOrKept, leaf-update, deletion-update, update_frame, slot-update,
  storage-update,
}
use reth_proofs.Tests.World.{
  witness, pre_state, post_state, diff, alice, alice_hash, alice_account, alice_storage, slot,
  state_root, storage_root, storage_entries,
}

built : from_execution_witness toy witness (state_root 1 7) ≡ ok pre_state
unfolding from_execution_witness build_validated_tries index_nodes detect_storage_tries
    build_storage_tries validate_state_trie validate_storage_tries validate_storage_trie hydrate
    from_digest get_rlp lookup reth_proofs.Table.insert
built = refl

from_execution_witness_lem_example :
    (toy.hash_slow pre_state.state_trie.inner ≡ state_root 1 7)
    × IsSynced toy pre_state.state_trie pre_state.storage_tries
    × IsKeyed pre_state.storage_tries
    × All (IsCovered toy pre_state.state_trie pre_state.storage_tries) witness.keys
from_execution_witness_lem_example =
    from_execution_witness_lem toy toy-TrieLaws witness (state_root 1 7) pre_state built

storage-from_execution_witness_example : All (IsReadable toy toy-TrieLaws pre_state) witness.keys
storage-from_execution_witness_example =
    storage-from_execution_witness toy toy-TrieLaws witness (state_root 1 7) pre_state built

validators_accept_example :
    build_validated_tries toy witness (state_root 1 7)
    ≡ ok (pre_state.state_trie, pre_state.storage_tries)
unfolding index_nodes detect_storage_tries build_storage_tries hydrate from_digest lookup
    reth_proofs.Table.insert
validators_accept_example =
    validators_accept toy toy-TrieLaws witness (state_root 1 7) pre_state.state_trie
      ((alice_hash, storage_root 7) ∷ []) pre_state.storage_tries (λ h. ground arith) refl refl refl

pub updated : update toy pre_state diff ≡ ok post_state
unfolding update update_storages update_storage apply_slots apply_slot entry_or_default
    update_accounts update_account delete_account storage_root_of sorted_by_key sort_insert
    reth_proofs.State.Mpt.insert_rlp reth_proofs.State.Mpt.remove lookup reth_proofs.Table.insert
    reth_proofs.Table.erase
updated = refl

pub diff-IsDiff : IsDiff toy diff
unfolding lookup
diff-IsDiff = record {
  accounts_keyed = (refl, (refl, tt));
  storages_keyed = (refl, tt);
  slots_keyed =
      λ a st h. All-lookup (λ (b, t). IsKeyed t.storage) diff.storages a st ((refl, tt), tt) h;
}

-- The same diff, with its accounts in the other order.
abbrev swapped : HashedPostState
swapped = record diff { accounts = (4, none) ∷ (alice_hash, some alice_account) ∷ [] }

swapped-IsDiff : IsDiff toy swapped
unfolding lookup
swapped-IsDiff = record {
  accounts_keyed = (refl, (refl, tt));
  storages_keyed = (refl, tt);
  slots_keyed = diff-IsDiff.slots_keyed;
}

swapped-IsSameDiff : IsSameDiff diff swapped
unfolding lookup
swapped-IsSameDiff = record {
  accounts = λ k. ground arith;
  storages = λ a. IsSameStorage-refl (lookup a diff.storages);
}

updated_swapped : update toy pre_state swapped ≡ ok post_state
unfolding update update_storages update_storage apply_slots apply_slot entry_or_default
    update_accounts update_account delete_account storage_root_of sorted_by_key sort_insert
    reth_proofs.State.Mpt.insert_rlp reth_proofs.State.Mpt.remove lookup reth_proofs.Table.insert
    reth_proofs.Table.erase
updated_swapped = refl

update-IsSameDiff_example :
    (get_rlp toy toy.account_codec post_state.state_trie alice_hash
      ≡ get_rlp toy toy.account_codec post_state.state_trie alice_hash)
    × (lookup alice_hash post_state.storage_tries ≡ lookup alice_hash post_state.storage_tries)
update-IsSameDiff_example =
    update-IsSameDiff toy toy-TrieLaws account-CodecLaws pre_state post_state post_state diff
      swapped alice_hash diff-IsDiff swapped-IsDiff swapped-IsSameDiff updated updated_swapped

leaf-update_example :
    (trie : Option toy.CachedTrie) × TrieAfter toy toy-TrieLaws account-CodecLaws pre_state
      alice_hash
      (lookup alice_hash diff.storages)
      trie
    × IsGoneOrKept toy toy-TrieLaws account-CodecLaws post_state alice_hash alice_account trie
unfolding lookup
leaf-update_example =
    leaf-update toy toy-TrieLaws account-CodecLaws pre_state post_state diff alice_hash
      alice_account diff-IsDiff updated refl

-- The account of alice is deleted.
abbrev deleting : HashedPostState
deleting = record { accounts = (alice_hash, none) ∷ []; storages = [] }

deleting-IsDiff : IsDiff toy deleting
unfolding lookup
deleting-IsDiff = record {
  accounts_keyed = (refl, tt);
  storages_keyed = tt;
  slots_keyed = λ a st h. cc;
}

abbrev without_alice : Risc0ZkvmTrie toy
without_alice = record { state_trie = record { inner = entries [] }; storage_tries = [] }

deleted : update toy pre_state deleting ≡ ok without_alice
unfolding update update_storages update_accounts update_account delete_account sorted_by_key
    reth_proofs.State.Mpt.remove lookup reth_proofs.Table.erase
deleted = refl

storage-update_deleted_example : storage toy without_alice alice 1 ≡ panic account_witness_todo
unfolding lookup
storage-update_deleted_example =
    storage-update_deleted toy toy-TrieLaws account-CodecLaws pre_state without_alice deleting alice
      1 deleting-IsDiff deleted refl

deletion-update_example :
    (get_rlp toy toy.account_codec post_state.state_trie 4 ≡ ok none)
    × (lookup 4 post_state.storage_tries ≡ none)
unfolding lookup
deletion-update_example =
    deletion-update toy toy-TrieLaws account-CodecLaws pre_state post_state diff 4 diff-IsDiff
      updated refl

update_frame_example :
    (get_rlp toy toy.account_codec post_state.state_trie 6
      ≡ get_rlp toy toy.account_codec pre_state.state_trie 6)
    × (lookup 6 post_state.storage_tries ≡ lookup 6 pre_state.storage_tries)
unfolding lookup
update_frame_example =
    update_frame toy toy-TrieLaws account-CodecLaws pre_state post_state diff 6 diff-IsDiff updated
      refl refl

slot-update_example :
    toy.trie_get (entries (storage_entries 9)) slot
    ≡ slot_after toy
        (some 9)
        (toy.trie_get (entry_or_default toy alice_hash pre_state.storage_tries) slot)
unfolding lookup
slot-update_example =
    slot-update toy toy-TrieLaws account-CodecLaws pre_state post_state diff alice_hash slot
      alice_storage (entries (storage_entries 9)) diff-IsDiff updated refl refl

storage-update_example : storage toy post_state alice 1 ≡ ok 9
unfolding lookup to_be_bytes
storage-update_example =
    storage-update toy toy-TrieLaws account-CodecLaws u256-CodecLaws pre_state post_state diff alice
      1 9 alice_storage (entries (storage_entries 9)) diff-IsDiff updated refl refl refl

pub diff-CoversStorages : CoversStorages toy toy-TrieLaws account-CodecLaws diff
unfolding lookup
diff-CoversStorages a st h =
    All-lookup (λ (b, t). (m : Option Account) × (lookup b diff.accounts ≡ some m)) diff.storages a
      st ((some alice_account, refl), tt) h

update-IsSynced_example : IsSynced toy post_state.state_trie post_state.storage_tries
update-IsSynced_example =
    update-IsSynced toy toy-TrieLaws account-CodecLaws pre_state post_state diff diff-IsDiff
      diff-CoversStorages from_execution_witness_lem_example.1 updated
