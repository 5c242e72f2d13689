-- ===== src/State/Update.antt =====
-- `update`: the diff of a block applied to the storage tries, and then to the accounts.
pub mod Sorting
pub mod Slots
pub mod Storages
pub mod Accounts
pub mod Refinement
pub mod Synced
pub mod Iteration
use reth_proofs.Prelude.{ℕ, Bool, Option, none, some, [], ◌∷◌, ◌&&◌, leb, ◌==◌, if◌then◌else◌}
use reth_proofs.Outcome.{Outcome, ok, ◌>>=◌}
use reth_proofs.Table.{Table, lookup, insert, erase}
use reth_proofs.External.{empty_root, TrieAccount, Account, External}
use reth_proofs.State.{Risc0ZkvmTrie}
use reth_proofs.State.Mpt.{insert_rlp, remove}

-- `reth_trie_common::{HashedStorage, HashedPostState}`
pub record HashedStorage : Type 0 where
  pub wiped : Bool
  pub storage : Table ℕ

pub record HashedPostState : Type 0 where
  pub accounts : Table (Option Account)
  pub storages : Table HashedStorage

-- `sorted_unstable_by_key`, on the keys of a map, which are distinct.
module _ {ℓ} {V : Type ℓ} where
  unfoldable pub sort_insert : ℕ → V → Table V → Table V
  sort_insert k v [] = (k, v) ∷ []
  sort_insert k v ((j, w) ∷ m) = if leb k j then (k, v) ∷ (j, w) ∷ m else (j, w) ∷ sort_insert k v m

  unfoldable pub sorted_by_key : Table V → Table V
  unfolding sort_insert
  sorted_by_key [] = []
  sorted_by_key ((k, v) ∷ m) = sort_insert k v (sorted_by_key m)

module _ (x : External) where
  unfoldable pub apply_slot : x.CachedTrie → ℕ → ℕ → Outcome x.CachedTrie
  apply_slot storage_trie slot value =
      if value == 0
      then (do (trie, _) ← x.trie_remove storage_trie slot; ok trie)
      else x.trie_insert storage_trie slot (x.u256_codec.encode value)

  unfoldable pub apply_slots : x.CachedTrie → Table ℕ → Outcome x.CachedTrie
  apply_slots storage_trie [] = ok storage_trie
  apply_slots storage_trie ((slot, value) ∷ slots) = do
    trie ← apply_slot storage_trie slot value
    apply_slots trie slots

  -- `entry(hashed_addr).or_default()`
  unfoldable pub entry_or_default : ℕ → Table x.CachedTrie → x.CachedTrie
  entry_or_default hashed_addr tries = elim (lookup hashed_addr tries) [
    | none ↦ x.trie_default
    | some trie ↦ trie
  ]

  -- One round of the first loop of `update`, on the trie of one address.
  unfoldable pub update_storage : x.CachedTrie → HashedStorage → Outcome x.CachedTrie
  update_storage storage_trie storage =
      apply_slots (if storage.wiped then x.trie_clear storage_trie else storage_trie)
        (sorted_by_key storage.storage)

  -- The first loop: the storage tries and the new roots, address by address.
  unfoldable pub update_storages :
      Table x.CachedTrie → Table ℕ → Table HashedStorage → Outcome (Table x.CachedTrie × Table ℕ)
  update_storages storage_tries new_storage_roots [] = ok (storage_tries, new_storage_roots)
  update_storages storage_tries new_storage_roots ((hashed_addr, storage) ∷ storages) = do
    trie ← update_storage (entry_or_default hashed_addr storage_tries) storage
    update_storages (insert hashed_addr trie storage_tries)
        (insert hashed_addr (x.hash_slow trie) new_storage_roots) storages

  abbrev pub root_of_trie : Option x.CachedTrie → ℕ
  root_of_trie none = empty_root
  root_of_trie (some trie) = x.hash_slow trie

  abbrev root_or_trie : Option ℕ → Option x.CachedTrie → ℕ
  root_or_trie none trie = root_of_trie trie
  root_or_trie (some root) trie = root

  -- Which storage root the account leaf of an address holds.
  unfoldable pub storage_root_of : Table ℕ → Table x.CachedTrie → ℕ → ℕ
  storage_root_of new_storage_roots storage_tries addr =
      root_or_trie (lookup addr new_storage_roots) (lookup addr storage_tries)

  abbrev pub trie_account : Account → ℕ → TrieAccount
  trie_account acct storage_root = record {
    nonce = acct.nonce;
    balance = acct.balance;
    storage_root = storage_root;
    code_hash = x.account_bytecode_hash acct;
  }

  unfoldable pub delete_account : Risc0ZkvmTrie x → ℕ → Outcome (Risc0ZkvmTrie x)
  delete_account s addr = do
    trie ← remove x s.state_trie addr
    ok (record { state_trie = trie; storage_tries = erase addr s.storage_tries })

  -- One round of the second loop of `update`.
  unfoldable pub update_account :
      Table ℕ → Risc0ZkvmTrie x → ℕ → Option Account → Outcome (Risc0ZkvmTrie x)
  unfolding delete_account
  update_account new_storage_roots s addr none = delete_account s addr
  update_account new_storage_roots s addr (some acct) =
      let storage_root = storage_root_of new_storage_roots s.storage_tries addr in
      if x.account_is_empty acct && storage_root == empty_root then delete_account s addr else do
        trie ← insert_rlp x x.account_codec s.state_trie addr (trie_account acct storage_root)
        ok (record s { state_trie = trie })

  unfoldable pub update_accounts :
      Table ℕ → Risc0ZkvmTrie x → Table (Option Account) → Outcome (Risc0ZkvmTrie x)
  update_accounts new_storage_roots s [] = ok s
  update_accounts new_storage_roots s ((addr, maybe_acct) ∷ accounts) = do
    s' ← update_account new_storage_roots s addr maybe_acct
    update_accounts new_storage_roots s' accounts

  unfoldable pub update : Risc0ZkvmTrie x → HashedPostState → Outcome (Risc0ZkvmTrie x)
  update s post_state = do
    (tries, roots) ← update_storages s.storage_tries [] (sorted_by_key post_state.storages)
    update_accounts roots (record s { storage_tries = tries }) post_state.accounts
