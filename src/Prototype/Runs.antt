-- ===== src/Prototype/Runs.antt =====
-- When the host's execution of a block succeeds.
use reth_proofs.Prelude.{◌≡◌, true, some, ◌↔◌, arith, ==_refl, subst, Bool-cases, inl, inr}
use reth_proofs.Outcome.{
  Outcome, ok, err, panic, map_err, >>=-eq-ok, check-eq-ok, trie_db_failed, failed_execution,
  block_recovery_failed, rpc_error, ok_or,
}
use reth_proofs.External.{External}
use reth_proofs.State.{Risc0ZkvmTrie, ExecutionWitness}
use reth_proofs.State.Update.{update}
use reth_proofs.State.Read.{compute_state_root}
use reth_proofs.Core.{Alloy, RecoveredBlock}
use reth_proofs.Core.TrieDb.{TrieDb, from_execution_witness}
use reth_proofs.Guest.{Zkvm, validate_block_post_execution}
use reth_proofs.Prototype.{Node, is_full, recover_rpc_block, execute_on, execute_block}

map_err-eq-ok {ℓ} :
    {A : Type ℓ} (e : reth_proofs.Outcome.Error) (m : Outcome A) {a : A}
    → map_err e m ≡ ok a
    → m ≡ ok a
map_err-eq-ok e (ok a) h = h
map_err-eq-ok e (err f) h = cc
map_err-eq-ok e (panic p) h = cc

module _ (x : External) (y : Alloy) (m : Zkvm x y) (n : Node y) where
  -- The output passes the checks, and takes the state to one with the root of the header.
  abbrev pub Passes : TrieDb x y → RecoveredBlock y → m.BlockExecutionOutput → Type 0
  Passes db b output =
      (m.execute db b ≡ ok output)
      × (m.post_execution_is_ok b output ≡ true)
      × (s : Risc0ZkvmTrie x) × (update x db.state (m.from_bundle_state output) ≡ ok s)
      × (x.hash_slow s.state_trie.inner ≡ b.block.header.state_root)

  execute_on_iff :
      (db : TrieDb x y) (b : RecoveredBlock y) (output : m.BlockExecutionOutput)
      → (execute_on x y m n db b ≡ ok output) ↔ Passes db b output
  unfolding execute_on validate_block_post_execution compute_state_root
  execute_on_iff db b output = (
    λ h.
        let (o, e, q) = >>=-eq-ok (map_err failed_execution (m.execute db b)) _ h in
        let (_, f, r) = >>=-eq-ok (validate_block_post_execution x y m b o) _ q in
        let (s, g, t) = >>=-eq-ok (update x db.state (m.from_bundle_state o)) _ r in
        let same : o ≡ output = ground (arith, t) in
        subst (Passes db b) same (map_err-eq-ok _ _ e, check-eq-ok _ _ f, s, g, ground (arith, t)),
    λ (e, f, s, g, same). rw (e, f, g, same, ==_refl b.block.header.state_root),
  )

  -- The host's execution of a block returns an output exactly if the witness makes a database, the
  -- block has its transactions in full and is recovered, and on the database it executes to this
  -- output, which passes the check after execution and takes the state to one with the root that
  -- the block's header claims.
  pub execute_block_iff :
      (block : n.RpcBlock) (w : ExecutionWitness) (output : m.BlockExecutionOutput)
      → (execute_block x y m n block w ≡ ok output) ↔ (
          (db : TrieDb x y) × (from_execution_witness x y w (n.rpc_block_to_consensus_block block)
            ≡ ok db)
          × (is_full (n.transactions block) ≡ true)
          × (b : RecoveredBlock y) × (n.try_recover (n.rpc_block_to_consensus_block block) ≡ some b)
          × Passes db b output)
  unfolding execute_block recover_rpc_block
  execute_block_iff block w output =
      let c = n.rpc_block_to_consensus_block block in
      (
        (λ h.
            let (db, e, q) =
              >>=-eq-ok (map_err trie_db_failed (from_execution_witness x y w c)) _ h in
            elim (Bool-cases (is_full (n.transactions block))) [
              | inl full ↦
                  let (b, f, r) =
                    >>=-eq-ok (ok_or (n.try_recover c) block_recovery_failed) _ (rw full at q) in
                  (
                    db,
                    map_err-eq-ok _ _ e,
                    full,
                    b,
                    ground (arith, f),
                    (execute_on_iff db b output).0 r,
                  )
              | inr hashed ↦ cc (rw hashed at q)
            ]),
        λ (db, e, full, b, f, passes). rw (e, full, f) ((execute_on_iff db b output).1 passes),
      )
