-- ===== src/State/Update/Accounts.antt =====
-- The second loop of `update`: the leaf and the storage trie of each account of the diff.
use reth_proofs.Prelude.{
  ℕ, ◌≡◌, refl, subst, ◌∙◌, Option, none, some, [], ◌∷◌, ◌&&◌, arith, ◌==◌, if◌then◌else◌, inl, inr,
  Bool-cases, ==_iff, ==_refl, ap,
}
use reth_proofs.Outcome.{ok, >>=-eq-ok}
use reth_proofs.Table.{Table, lookup, IsKeyed}
use reth_proofs.Table.Laws.{lookup-erase}
use reth_proofs.External.{empty_root, TrieAccount, Account, External, TrieLaws, CodecLaws}
use reth_proofs.State.{Risc0ZkvmTrie}
use reth_proofs.State.Mpt.{get_rlp, insert_rlp, remove, get_rlp-insert_rlp, get_rlp-remove}
use reth_proofs.State.Update.{
  root_or_trie, storage_root_of, trie_account, delete_account, update_account, update_accounts,
}

module _ (x : External) where
  -- The account leaf that a diff entry asks for, given the root and the trie at its address.
  abbrev pub leaf_after : Option ℕ → Option x.CachedTrie → Option Account → Option TrieAccount
  leaf_after root trie none = none
  leaf_after root trie (some acct) =
      let storage_root = root_or_trie x root trie in
      if x.account_is_empty acct && storage_root == empty_root
      then none
      else some (trie_account x acct storage_root)

  -- An address without a leaf keeps no storage trie.
  abbrev pub kept : Option TrieAccount → Option x.CachedTrie → Option x.CachedTrie
  kept none trie = none
  kept (some _) trie = trie

  -- What the loop leaves at one address, given the address's entry in the diff.
  abbrev pub AccountAt :
      Table ℕ → Risc0ZkvmTrie x → Risc0ZkvmTrie x → ℕ → Option (Option Account) → Type 0
  AccountAt roots s s' a none =
      (get_rlp x x.account_codec s'.state_trie a ≡ get_rlp x x.account_codec s.state_trie a)
      × (lookup a s'.storage_tries ≡ lookup a s.storage_tries)
  AccountAt roots s s' a (some m) =
      let leaf = leaf_after (lookup a roots) (lookup a s.storage_tries) m in
      (get_rlp x x.account_codec s'.state_trie a ≡ ok leaf)
      × (lookup a s'.storage_tries ≡ kept leaf (lookup a s.storage_tries))

module _ (x : External) (laws : TrieLaws x) (codec : CodecLaws x.account_codec) where
  delete_account-at :
      (s s' : Risc0ZkvmTrie x) (k a : ℕ)
      → delete_account x s k ≡ ok s'
      → (get_rlp x x.account_codec s'.state_trie a
          ≡ (if k == a then ok none else get_rlp x x.account_codec s.state_trie a))
        × (lookup a s'.storage_tries ≡ (if k == a then none else lookup a s.storage_tries))
  unfolding delete_account
  delete_account-at s s' k a h =
      let (t, e, q) = >>=-eq-ok (remove x s.state_trie k) _ h in
      (
        get_rlp-remove x laws x.account_codec s.state_trie s'.state_trie k a (ground (arith, e, q)),
        ground (arith, q, lookup-erase k a s.storage_tries),
      )

  -- A deletion leaves the address without leaf and trie, and any other address as it was.
  delete_account-AccountAt :
      (roots : Table ℕ) (s s' : Risc0ZkvmTrie x) (k a : ℕ) (m : Option Account)
      → leaf_after x (lookup k roots) (lookup k s.storage_tries) m ≡ none
      → delete_account x s k ≡ ok s'
      → AccountAt x roots s s' a (if k == a then some m else none)
  delete_account-AccountAt roots s s' k a m empty h =
      let d = delete_account-at s s' k a h in
      elim (Bool-cases (k == a)) [
        | inl hit ↦
            let e =
              subst (λ j. leaf_after x (lookup j roots) (lookup j s.storage_tries) m ≡ none)
                ((==_iff k a).0 hit) empty in
            rw (hit, e) (rw hit at d.0, rw hit at d.1)
        | inr miss ↦ rw miss (rw miss at d.0, rw miss at d.1)
      ]

  -- An update writes the leaf and leaves the tries alone.
  insert_account-AccountAt :
      (roots : Table ℕ) (s s' : Risc0ZkvmTrie x) (k a : ℕ) (acct : Account) (leaf : TrieAccount)
      → leaf_after x (lookup k roots) (lookup k s.storage_tries) (some acct) ≡ some leaf
      → insert_rlp x x.account_codec s.state_trie k leaf ≡ ok s'.state_trie
      → s'.storage_tries ≡ s.storage_tries
      → AccountAt x roots s s' a (if k == a then some (some acct) else none)
  insert_account-AccountAt roots s s' k a acct leaf full e same =
      let g = get_rlp-insert_rlp x laws x.account_codec codec s.state_trie s'.state_trie in
      elim (Bool-cases (k == a)) [
        | inl hit ↦ rw hit (
            subst (λ j. AccountAt x roots s s' j (some (some acct))) ((==_iff k a).0 hit)
              (rw full (rw (==_refl k) at (g k k leaf e), ap (lookup k) same)))
        | inr miss ↦ rw miss (rw miss at (g k a leaf e), ap (lookup a) same)
      ]

  update_account-AccountAt :
      (roots : Table ℕ) (s s' : Risc0ZkvmTrie x) (k a : ℕ) (m : Option Account)
      → update_account x roots s k m ≡ ok s'
      → AccountAt x roots s s' a (if k == a then some m else none)
  unfolding update_account storage_root_of
  update_account-AccountAt roots s s' k a none h =
      delete_account-AccountAt roots s s' k a none refl h
  update_account-AccountAt roots s s' k a (some acct) h =
      let root = root_or_trie x (lookup k roots) (lookup k s.storage_tries) in
      elim (Bool-cases (x.account_is_empty acct && root == empty_root)) [
        | inl empty ↦ delete_account-AccountAt roots s s' k a (some acct) (rw empty) (rw empty at h)
        | inr full ↦
            let leaf = trie_account x acct root in
            let (t, e, q) =
              >>=-eq-ok (insert_rlp x x.account_codec s.state_trie k leaf) _ (rw full at h) in
            insert_account-AccountAt roots s s' k a acct leaf (rw full) (ground (arith, e, q))
              (ground (arith, q))
      ]

  -- A round that leaves the address alone, before the rounds that reach it.
  AccountAt-after :
      (roots : Table ℕ) (s u s' : Risc0ZkvmTrie x) (a : ℕ) (o : Option (Option Account))
      → AccountAt x roots s u a none
      → AccountAt x roots u s' a o
      → AccountAt x roots s s' a o
  AccountAt-after roots s u s' a none p q = (q.0 ∙ p.0, q.1 ∙ p.1)
  AccountAt-after roots s u s' a (some m) p q = (rw p.1 at q.0, rw p.1 at q.1)

  -- And the other way round.
  AccountAt-before :
      (roots : Table ℕ) (s u s' : Risc0ZkvmTrie x) (a : ℕ) (o : Option (Option Account))
      → AccountAt x roots s u a o
      → AccountAt x roots u s' a none
      → AccountAt x roots s s' a o
  AccountAt-before roots s u s' a none p q = (q.0 ∙ p.0, q.1 ∙ p.1)
  AccountAt-before roots s u s' a (some m) p q = (q.0 ∙ p.0, q.1 ∙ p.1)

  pub update_accounts-AccountAt :
      (roots : Table ℕ) (accounts : Table (Option Account)) (s s' : Risc0ZkvmTrie x) (a : ℕ)
      → IsKeyed accounts
      → update_accounts x roots s accounts ≡ ok s'
      → AccountAt x roots s s' a (lookup a accounts)
  unfolding update_accounts lookup
  update_accounts-AccountAt roots [] s s' a d h = ground arith
  update_accounts-AccountAt roots ((k, m) ∷ accounts) s s' a d h =
      let (u, e, q) = >>=-eq-ok (update_account x roots s k m) _ h in
      let first = update_account-AccountAt roots s u k a m e in
      let later = update_accounts-AccountAt roots accounts u s' a d.1 q in
      elim (Bool-cases (k == a)) [
        | inl hit ↦
            let absent = subst (λ j. lookup j accounts ≡ none) ((==_iff k a).0 hit) d.0 in
            rw hit (AccountAt-before roots s u s' a (some m) (rw hit at first) (rw absent at later))
        | inr miss ↦
            rw miss (AccountAt-after roots s u s' a (lookup a accounts) (rw miss at first) later)
      ]
