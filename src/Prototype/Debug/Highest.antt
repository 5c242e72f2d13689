-- ===== src/Prototype/Debug/Highest.antt =====
-- The check of the highest block, and what comes after it.
use reth_proofs.Prelude.{
  ℕ, suc, false, ==_refl, ◌+◌, ◌^◌, ◌≤◌, ◌<◌, ◌≡◌, ◌≢◌, refl, true, Option, none, some, List, [],
  ◌∷◌, length, leb, ◌==◌, arith, ap, sym, subst, ◌∙◌, Bool-cases, Option-cases, inl, inr,
}
use reth_proofs.Outcome.{ok, panic, not_supported_for_new_trie, >>=-eq-ok}
use reth_proofs.Table.{Table, lookup}
use reth_proofs.External.{External}
use reth_proofs.State.{ExecutionWitness}
use reth_proofs.Core.{Header, SealedHeader, Alloy, Block}
use reth_proofs.Core.Headers.{AncestorHeaders, seal_and_validate}
use reth_proofs.Core.Headers.Chain.{IsChain, seal_and_validate-IsChain}
use reth_proofs.Core.Headers.Hashes.{hash_at, hash_at-none, seal_and_validate_lem}
use reth_proofs.Core.TrieDb.{TrieDb, first, from_execution_witness}
use reth_proofs.Prototype.{Node}
use reth_proofs.Prototype.Rpc.{Rpc, Files, load_block_from_file, load_block_witness_from_file}
use reth_proofs.Prototype.Debug.{
  larger, max_key, check_highest, format_trie, debug_local_block_and_witness,
}

-- Every key is at most the greatest one.
le-max_key : (t : Table ℕ) (n : ℕ) → lookup n t ≢ none → (j : ℕ) × (max_key t ≡ some j) × (n ≤ j)
unfolding lookup max_key
le-max_key [] n found = absurd (found refl)
le-max_key ((k, hash) ∷ t) n found = elim (Bool-cases (k == n)) [
  | inl here ↦ (larger k (max_key t), refl, le_larger (max_key t) (ground (arith, here)))
  | inr there ↦
      let (j, e, le) = le-max_key t n (λ absent. found (ground (arith, there, absent))) in
      (larger k (max_key t), refl, ground (arith, e, le))
]
  where
    le_larger : (o : Option ℕ) → k ≡ n → n ≤ larger k o
    le_larger none same = omega (arith, same)
    le_larger (some j) same = ground (arith, same)

-- The greatest key is a key.
max_key-found : (t : Table ℕ) (j : ℕ) → max_key t ≡ some j → lookup j t ≢ none
unfolding lookup max_key
max_key-found [] j h = cc
max_key-found ((k, hash) ∷ t) j h = elim (Option-cases (max_key t)) [
  | inl e ↦ ground (arith, h, e)
  | inr (i, e) ↦ ground (arith, h, e, max_key-found t i e)
]

max_key_lem :
    (t : Table ℕ) (m : ℕ)
    → lookup m t ≢ none
    → ((n : ℕ) → lookup n t ≢ none → n ≤ m)
    → max_key t ≡ some m
max_key_lem t m found bound =
    let (j, e, le) = le-max_key t m found in
    let ge = bound j (max_key-found t j e) in e ∙ ap some (omega (arith, le, ge))

module _ (y : Alloy) where
  -- No ancestor has the number of the block, or a higher one.
  hash_at-lt :
      (n : ℕ) (prev : Header) (hs : List Header)
      → IsChain y prev hs
      → length hs ≤ prev.number
      → prev.number < 2 ^ 64
      → hash_at y n hs ≢ none
      → n < prev.number
  hash_at-lt n prev hs c l u found = elim (Bool-cases (leb prev.number n)) [
    | inl le ↦ absurd (found (hash_at-none y n prev hs c l u (ground (arith, le))))
    | inr gt ↦ ground (arith, gt)
  ]

  -- The highest block of the map is the parent.
  highest :
      (a : AncestorHeaders) (block : Block y) (hashes : Table ℕ) (parent : SealedHeader)
      → length a.headers ≤ block.header.number
      → block.header.number < 2 ^ 64
      → seal_and_validate y a (record { body = block }) ≡ ok (hashes, parent)
      → (max_key hashes ≡ some parent.number) × (parent.number + 1 ≡ block.header.number)
  highest a block hashes parent l u h =
      let (found, (rest, e), _) =
        seal_and_validate_lem y a (record { body = block }) hashes parent l u h in
      let chain = seal_and_validate-IsChain y a (record { body = block }) (hashes, parent) h in
      let linked : IsChain y block.header (parent.header ∷ rest) =
        subst (IsChain y block.header) e chain in
      let some_left : suc (length rest) ≤ block.header.number =
        subst (λ hs. length hs ≤ block.header.number) e l in
      let next : parent.number + 1 ≡ block.header.number = omega (arith, linked.0, some_left, u) in
      let here : lookup parent.number hashes ≡ some (y.hash_header parent.header) =
        found parent.number ∙ ap (hash_at y parent.number) e ∙ rw (==_refl parent.number) in
      (
        max_key_lem hashes parent.number (λ absent. cc (sym here ∙ absent))
            (λ n known.
              let lt =
                hash_at-lt n block.header a.headers chain l u
                  (λ absent. known (found n ∙ absent)) in
              omega (arith, lt, next)),
        next,
      )

  module _ (x : External) where
    check_highest_lem :
        (w : ExecutionWitness) (block : Block y) (a : AncestorHeaders) (db : TrieDb x y)
        → reth_proofs.Core.Headers.from_execution_witness y w ≡ ok a
        → length a.headers ≤ block.header.number
        → block.header.number < 2 ^ 64
        → from_execution_witness x y w block ≡ ok db
        → check_highest x y db block ≡ ok tt
    unfolding from_execution_witness check_highest
    check_highest_lem w block a db decoded l u h =
        let ((hashes, parent), e, q) =
          >>=-eq-ok (seal_and_validate y a (record { body = block })) _ (rw decoded at h) in
        let (p, f, q1) = >>=-eq-ok (first a.headers) _ q in
        let (s, g, q2) =
          >>=-eq-ok (reth_proofs.State.Build.from_execution_witness x w p.state_root) _ q1 in
        let (b, i, made) = >>=-eq-ok (reth_proofs.Core.Bytecodes.from_execution_witness y w) _ q2 in
        let (most, next) = highest a block hashes parent l u e in
        let same : hashes ≡ db.block_hashes = ground (arith, made) in
        let most_db : max_key db.block_hashes ≡ some parent.number =
          subst (λ m. max_key m ≡ some parent.number) same most in
        rw most_db (ground (arith, next, u))

    module _ (n : Node y) (r : Rpc y n) where
      -- Of a stored block with not more ancestors than its number, whose witness makes a database,
      -- the program finds the parent to be the highest block, and yet never describes the trie: if
      -- its size is not zero, the program panics, since the new trie cannot be described.
      pub debug_local_block_and_witness-panics :
          (size : x.CachedTrie → ℕ) (files : Files) (block_number : ℕ) (rpc_block : n.RpcBlock)
          (w : ExecutionWitness) (a : AncestorHeaders) (db : TrieDb x y)
          → load_block_from_file y n r files block_number ≡ ok rpc_block
          → load_block_witness_from_file y n r files block_number ≡ ok w
          → files.writable ≡ true
          → reth_proofs.Core.Headers.from_execution_witness y w ≡ ok a
          → length a.headers ≤ (n.rpc_block_to_consensus_block rpc_block).header.number
          → (n.rpc_block_to_consensus_block rpc_block).header.number < 2 ^ 64
          → from_execution_witness x y w (n.rpc_block_to_consensus_block rpc_block) ≡ ok db
          → size db.state.state_trie.inner ≢ 0
          → (check_highest x y db (n.rpc_block_to_consensus_block rpc_block) ≡ ok tt)
            × (debug_local_block_and_witness x y n r size files block_number
                ≡ panic not_supported_for_new_trie)
      unfolding debug_local_block_and_witness format_trie
      debug_local_block_and_witness-panics size files block_number rpc_block w a db e f can decoded
            l u made full =
          let passed =
            check_highest_lem w (n.rpc_block_to_consensus_block rpc_block) a db decoded l u made in
          let not_empty : (size db.state.state_trie.inner == 0) ≡ false = ground (arith, full) in
          (passed, rw (e, f, can, made, not_empty, passed))
