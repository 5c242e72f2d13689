-- ===== src/Hosts/Segments.antt =====
-- The `main` of zkvm/risc0-host/src/main-recursive.rs: the stored block is executed and proved
-- whole, and then once more segment by segment, of which the receipts are joined. A join fails on
-- receipts that are not adjacent in one session.
use reth_proofs.Prelude.{◌≡◌, List}
use reth_proofs.Outcome.{Outcome, ok, >>=-eq-ok, ◌>>=◌, ◌>>◌}
use reth_proofs.External.{Bytes, External, TrieLaws}
use reth_proofs.State.{ExecutionWitness}
use reth_proofs.Core.{Alloy, AlloyLaws}
use reth_proofs.Core.Input.{ZkvmInput}
use reth_proofs.Guest.{Zkvm}
use reth_proofs.Prototype.{Node}
use reth_proofs.Prototype.Rpc.{Rpc, Files}
use reth_proofs.Recursive.{ProverServer, prove_and_join}
use reth_proofs.Recursive.Order.{ProverLaws, prove_and_join_lem}
use reth_proofs.Hosts.{Risc0, max_po2, risc0_guest_main, host_handler}
use reth_proofs.Hosts.Valid.{Risc0Laws, Decodes, IsStored, IsValidBlock, guest_ran-valid}

module _ (x : External) (y : Alloy) (n : Node y) (r : Rpc y n) (z : Zkvm x y) (v : Risc0)
    (p : ProverServer) where
  -- `run` is `ExecutorImpl::run_with_callback`, which gives the segments of an execution; `server` is
  -- how `get_prover_server` ends.
  unfoldable pub recursive_host_main :
      (run : (v.Env → Outcome (Unit {0})) → v.Env → Outcome (List p.Segment))
      → (server : Outcome (Unit {0})) → (serialize : ZkvmInput x y → Outcome Bytes) → Files
      → Outcome p.SuccinctReceipt
  recursive_host_main run server serialize files = do
    let guest = risc0_guest_main x y z v
    input_bytes ← host_handler x y n r serialize files
    env_ref ← v.build_env max_po2 input_bytes
    session_info ← v.execute guest env_ref
    env_full ← v.build_env max_po2 input_bytes
    receipt ← v.prove_with_opts guest env_full
    env ← v.build_env max_po2 input_bytes
    segments ← run guest env
    server
    prove_and_join p segments

  -- If the recursive host returns a receipt for the stored block and a witness whose headers link
  -- up from it, decoding undoes the serialization of its input, and a join of receipts that succeeds
  -- claims what both claim, then the receipt claims all the
  -- segments, in order, of a run of the guest on the framed input, and the block passes the
  -- consensus checks and executes to the root of its header.
  pub recursive_host_main-valid :
      (laws : TrieLaws x) (signing : AlloyLaws y)
      → Risc0Laws v
      → (prover : ProverLaws p)
      → (run : (v.Env → Outcome (Unit {0})) → v.Env → Outcome (List p.Segment))
      → (server : Outcome (Unit {0})) (serialize : ZkvmInput x y → Outcome Bytes) (files : Files)
      → (receipt : p.SuccinctReceipt) (b : n.RpcBlock) (w : ExecutionWitness)
      → Decodes x y n r z serialize b w
      → IsStored x y n r files b w
      → recursive_host_main run server serialize files ≡ ok receipt
      → ((bytes : Bytes) × (host_handler x y n r serialize files ≡ ok bytes)
          × (env : v.Env) × (v.build_env max_po2 bytes ≡ ok env)
          × (segments : List p.Segment) × (run (risc0_guest_main x y z v) env ≡ ok segments)
          × (prover.claim receipt ≡ segments))
        × IsValidBlock x y n r laws signing z v b w
  unfolding recursive_host_main
  recursive_host_main-valid laws signing risc0 prover run server serialize files receipt b w decodes
        stored h =
      let guest = risc0_guest_main x y z v in
      let (bytes, g, h1) = >>=-eq-ok (host_handler x y n r serialize files) _ h in
      let (env_ref, i, h2) = >>=-eq-ok (v.build_env max_po2 bytes) _ h1 in
      let (info, j, h3) = >>=-eq-ok (v.execute guest env_ref) _ h2 in
      let (env_full, k, h4) = >>=-eq-ok (v.build_env max_po2 bytes) _ h3 in
      let (whole, l, h5) = >>=-eq-ok (v.prove_with_opts guest env_full) _ h4 in
      let (env, m, h6) = >>=-eq-ok (v.build_env max_po2 bytes) _ h5 in
      let (segments, o, h7) = >>=-eq-ok (run guest env) _ h6 in
      let (_, s, h8) = >>=-eq-ok server _ h7 in
      (
        (bytes, g, env, m, segments, o, prove_and_join_lem p prover segments receipt h8),
        guest_ran-valid x y n r laws signing z v risc0 serialize files bytes env_ref b w decodes
            stored g i (risc0.execute_runs guest env_ref info j),
      )
