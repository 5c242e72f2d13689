-- ===== src/State/Build/Witness.antt =====
-- What the host's tries are worth: `from_execution_witness` against the witness and the root.
use reth_proofs.Prelude.{
  ℕ, ◌≡◌, ◌≢◌, ap, sym, none, subst, ◌∙◌, some, List, [], ◌∷◌, arith, ◌==◌, inl, inr, Bool-cases,
  ==_iff, ==_refl, All, length, Option-cases, ◌⊎◌,
}
use reth_proofs.Outcome.{ok, unwrap, ◌>>=◌, >>=-eq-ok, unwrap-eq-ok, check-eq-ok}
use reth_proofs.Table.{Table, lookup, IsKeyed}
use reth_proofs.External.{Bytes, empty_root, to_be_bytes, TrieAccount, External, TrieLaws}
use reth_proofs.State.{Risc0ZkvmTrie, ExecutionWitness}
use reth_proofs.State.Mpt.{MptNode, from_digest, hydrate, get_rlp}
use reth_proofs.State.Validate.{validate_state_trie, validate_storage_tries}
use reth_proofs.State.Validate.Synced.{IsSynced, validate_storage_tries-IsSynced}
use reth_proofs.State.Read.{account, decode_slot, storage}
use reth_proofs.State.Build.{
  index_nodes, detect_storage_tries, build_storage_tries, build_validated_tries,
  from_execution_witness,
}
use reth_proofs.State.Build.Detected.{
  IsCovered, detect_storage_tries-IsDeclared, detect_storage_tries-IsCovered, IsCovered-mono,
}
use reth_proofs.State.Build.Tries.{build_storage_tries_lem}

module _ (x : External) (laws : TrieLaws x) where
  hash-hydrate-from_digest :
      (root : ℕ) (m : Table Bytes) (st : MptNode x TrieAccount)
      → root ≢ 0
      → hydrate x (from_digest x root) m ≡ ok st
      → x.hash_slow st.inner ≡ root
  unfolding hydrate from_digest
  hash-hydrate-from_digest root m st n h =
      ground
        (arith, laws.hash-hydrate (x.trie_from_digest root) st.inner m, laws.hash-from_digest root)

  -- The tries that steps 1 to 4 make.
  pub storage_tries_lem :
      (w : ExecutionWitness) (st : MptNode x TrieAccount) (m : Table Bytes) (detected : Table ℕ)
      → (tries : Table x.CachedTrie) → detect_storage_tries x st w.keys ≡ ok detected
      → build_storage_tries x m [] detected ≡ ok tries
      → IsSynced x st tries × IsKeyed tries × All (IsCovered x st tries) w.keys
  unfolding lookup
  storage_tries_lem w st m detected tries h k =
      let (synced, keyed, keys) =
        build_storage_tries_lem x st laws m detected [] tries
          (detect_storage_tries-IsDeclared x st w.keys detected h) (λ a t e. cc) tt k in
      (
        synced,
        keyed,
        IsCovered-mono x st detected tries (λ a covered. keys a (inl covered)) w.keys
            (detect_storage_tries-IsCovered x st w.keys detected h),
      )

  -- With a root other than zero, if the state trie hydrates, the accounts of the witness keys are
  -- read, and the storage tries of the detected roots are built, then both validators pass: the
  -- build returns these tries.
  pub validators_accept :
      (w : ExecutionWitness) (root : ℕ) (st : MptNode x TrieAccount) (detected : Table ℕ)
      → (tries : Table x.CachedTrie) → root ≢ 0
      → hydrate x (from_digest x root) (index_nodes x [] w.state) ≡ ok st
      → detect_storage_tries x st w.keys ≡ ok detected
      → build_storage_tries x (index_nodes x [] w.state) [] detected ≡ ok tries
      → build_validated_tries x w root ≡ ok (st, tries)
  unfolding build_validated_tries validate_state_trie
  validators_accept w root st detected tries n h d b =
      let (synced, keyed, _) =
        storage_tries_lem w st (index_nodes x [] w.state) detected tries d b in
      rw (
        h,
        d,
        b,
        hash-hydrate-from_digest root (index_nodes x [] w.state) st n h,
        ==_refl root,
        (validate_storage_tries-IsSynced x st tries keyed).1 synced,
      )

  -- The steps of a build that succeeds.
  build_validated_tries_steps :
      (w : ExecutionWitness) (root : ℕ) (st : MptNode x TrieAccount) (tries : Table x.CachedTrie)
      → build_validated_tries x w root ≡ ok (st, tries)
      → (detected : Table ℕ) × (detect_storage_tries x st w.keys ≡ ok detected)
        × (build_storage_tries x (index_nodes x [] w.state) [] detected ≡ ok tries)
        × (hydrate x (from_digest x root) (index_nodes x [] w.state) ≡ ok st)
        × (x.hash_slow st.inner ≡ root)
  unfolding build_validated_tries validate_state_trie
  build_validated_tries_steps w root st tries h =
      let m = index_nodes x [] w.state in
      let hydrated = hydrate x (from_digest x root) m in
      let (u, resolved, p) = >>=-eq-ok (unwrap hydrated) _ h in
      let (detected, d, q) = >>=-eq-ok (detect_storage_tries x u w.keys) _ p in
      let (built, b, r) = >>=-eq-ok (build_storage_tries x m [] detected) _ q in
      let (_, c, t) = >>=-eq-ok (validate_state_trie x u root) _ r in
      let (_, _, made) = >>=-eq-ok (validate_storage_tries x u built) _ t in
      let same_trie : u ≡ st = ground (arith, made) in
      let same_tries : built ≡ tries = ground (arith, made) in
      let hash = (==_iff (x.hash_slow u.inner) root).0 (check-eq-ok _ _ c) in
      (
        detected,
        subst (λ v. detect_storage_tries x v w.keys ≡ ok detected) same_trie d,
        b ∙ ap ok same_tries,
        unwrap-eq-ok hydrated resolved ∙ ap ok same_trie,
        subst (λ (v : MptNode x TrieAccount). x.hash_slow v.inner ≡ root) same_trie hash,
      )

  -- A state built from a witness has the given root, its storage tries are those that its accounts
  -- declare, and every witness key that is an address with storage has its trie.
  pub from_execution_witness_lem :
      (w : ExecutionWitness) (root : ℕ) (s : Risc0ZkvmTrie x)
      → from_execution_witness x w root ≡ ok s
      → (x.hash_slow s.state_trie.inner ≡ root)
        × IsSynced x s.state_trie s.storage_tries
        × IsKeyed s.storage_tries
        × All (IsCovered x s.state_trie s.storage_tries) w.keys
  unfolding from_execution_witness
  from_execution_witness_lem w root s h =
      let (r, e, q) = >>=-eq-ok (unwrap (build_validated_tries x w root)) _ h in
      let built : build_validated_tries x w root ≡ ok (s.state_trie, s.storage_tries) =
        ground (arith, unwrap-eq-ok (build_validated_tries x w root) e, q) in
      let (detected, d, b, _, hash) =
        build_validated_tries_steps w root s.state_trie s.storage_tries built in
      let (synced, keyed, covered) =
        storage_tries_lem w s.state_trie (index_nodes x [] w.state) detected s.storage_tries d b in
      (hash, synced, keyed, covered)

  hash-hydrate_zero :
      (m : Table Bytes) (st : MptNode x TrieAccount)
      → hydrate x (from_digest x 0) m ≡ ok st
      → x.hash_slow st.inner ≡ empty_root
  unfolding hydrate from_digest
  hash-hydrate_zero m st h =
      ground (arith, laws.hash-hydrate x.trie_default st.inner m, laws.hash-default)

  -- The zero root is never built: `from_digest` reads it as the empty trie, whose hash it is not.
  pub from_execution_witness_zero :
      (w : ExecutionWitness) (s : Risc0ZkvmTrie x) → from_execution_witness x w 0 ≢ ok s
  unfolding from_execution_witness
  from_execution_witness_zero w s h =
      let (r, e, q) = >>=-eq-ok (unwrap (build_validated_tries x w 0)) _ h in
      let (_, _, _, resolved, hash) =
        build_validated_tries_steps w 0 r.0 r.1 (unwrap-eq-ok (build_validated_tries x w 0) e) in
      absurd (omega (arith, hash, hash-hydrate_zero (index_nodes x [] w.state) r.0 resolved))

  -- How `storage` reads a slot of the address, if this has an account: in the trie whose root is the
  -- account's storage root, or without a trie, as zero, if that root is the empty one.
  abbrev pub IsReadable : Risc0ZkvmTrie x → Bytes → Type 0
  IsReadable s address =
      (acct : TrieAccount) (index : ℕ)
      → length address ≡ 20
      → account x s address ≡ ok (some acct)
      → ((t : x.CachedTrie) × (lookup (x.keccak256 address) s.storage_tries ≡ some t)
          × (x.hash_slow t ≡ acct.storage_root)
          × (storage x s address index
              ≡ (x.trie_get t (x.keccak256 (to_be_bytes 32 index)) >>= decode_slot x)))
        ⊎ ((lookup (x.keccak256 address) s.storage_tries ≡ none)
            × (acct.storage_root ≡ empty_root)
            × (storage x s address index ≡ ok 0))

  IsCovered-IsReadable :
      (s : Risc0ZkvmTrie x) (address : Bytes)
      → IsSynced x s.state_trie s.storage_tries
      → IsCovered x s.state_trie s.storage_tries address
      → IsReadable s address
  unfolding account storage
  IsCovered-IsReadable s address synced covered acct index l e =
      let a = x.keccak256 address in
      let found = unwrap-eq-ok (get_rlp x x.account_codec s.state_trie a) e in
      elim (Option-cases (lookup a s.storage_tries)) [
        | inl absent ↦ elim (Bool-cases (acct.storage_root == empty_root)) [
          | inl empty ↦
              inr (absent, (==_iff acct.storage_root empty_root).0 empty, rw (absent, found, empty))
          | inr full ↦
              let (t, held) = covered acct l found (ground (arith, full)) in cc (sym absent ∙ held)
        ]
        | inr (t, held) ↦
            let (acct', found', root) = synced a t held in
            let same : acct' ≡ acct = ground (arith, found, found') in
            inl (t, held, ground (arith, root, same), rw held)
      ]

  All-IsReadable :
      (s : Risc0ZkvmTrie x) (keys : List Bytes)
      → IsSynced x s.state_trie s.storage_tries
      → All (IsCovered x s.state_trie s.storage_tries) keys
      → All (IsReadable s) keys
  All-IsReadable s [] synced all = tt
  All-IsReadable s (key ∷ keys) synced all =
      (IsCovered-IsReadable s key synced all.0, All-IsReadable s keys synced all.1)

  -- In a state built from a witness, at each address that the witness names and that has an
  -- account, `storage` reads the slot in the trie that is held for the address, whose root is the
  -- account's storage root, or there is no trie, this root is the empty one, and it returns zero:
  -- the panic on a missing trie is not reached there. Nothing is said of
  -- the read in the trie, which may fail.
  pub storage-from_execution_witness :
      (w : ExecutionWitness) (root : ℕ) (s : Risc0ZkvmTrie x)
      → from_execution_witness x w root ≡ ok s
      → All (IsReadable s) w.keys
  storage-from_execution_witness w root s h =
      let (_, synced, _, covered) = from_execution_witness_lem w root s h in
      All-IsReadable s w.keys synced covered
