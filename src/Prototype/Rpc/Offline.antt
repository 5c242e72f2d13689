-- ===== src/Prototype/Rpc/Offline.antt =====
-- A block that was stored, executed from its files and from the node.
use reth_proofs.Prelude.{ℕ, ◌≡◌, Option, some, none, arith, ap, subst, ◌∙◌}
use reth_proofs.Outcome.{
  Outcome, ok, err, panic, unwrap, expect, ok_or, unwrapped_none, rpc_error, invalid_url, >>=-eq-ok,
  unwrap-eq-ok,
}
use reth_proofs.Table.Laws.{lookup-insert}
use reth_proofs.External.{Bytes, External}
use reth_proofs.State.{ExecutionWitness}
use reth_proofs.Core.{Alloy}
use reth_proofs.Guest.{Zkvm}
use reth_proofs.Prototype.{Node}
use reth_proofs.Prototype.Rpc.{
  Rpc, Files, create_provider, get_last_block_number, fetch_full_block, fetch_block_witness,
  save_block_in_file, load_block_from_file, save_block_witness_in_file,
  load_block_witness_from_file, store_latest_block_and_witness, execute_block_offline,
  execute_block_with_rpc,
}

ok_or-eq-ok {ℓ} :
    {A : Type ℓ} (o : Option A) (e : reth_proofs.Outcome.Error) {a : A}
    → ok_or o e ≡ ok a
    → o ≡ some a
ok_or-eq-ok (some b) e h = ground (arith, h)
ok_or-eq-ok none e h = cc

module _ (y : Alloy) (n : Node y) (r : Rpc y n) where
  -- JSON is read back as it was written, and a node answers for the block that it is asked for.
  pub record RpcLaws : Type 0 where
    pub block_from-to :
        (b : n.RpcBlock) (json : Bytes)
        → r.block_to_string b ≡ some json
        → r.block_from_str json ≡ some b
    pub witness_from-to :
        (w : ExecutionWitness) (json : Bytes)
        → r.witness_to_string w ≡ some json
        → r.witness_from_str json ≡ some w
    pub number_of-asked :
        (p : r.Provider) (number : ℕ) (b : n.RpcBlock)
        → r.get_block_by_number p number ≡ some (some b)
        → r.number_of b ≡ number

  module _ (laws : RpcLaws) where
    number_of-fetched :
        (p : r.Provider) (number : ℕ) (b : n.RpcBlock)
        → fetch_full_block y n r p number ≡ ok (some b)
        → r.number_of b ≡ number
    unfolding fetch_full_block
    number_of-fetched p number b h = laws.number_of-asked p number b (ok_or-eq-ok _ _ h)

    load-save_block :
        (files files' : Files) (b : n.RpcBlock)
        → save_block_in_file y n r files b ≡ ok files'
        → load_block_from_file y n r files' (r.number_of b) ≡ ok b
    unfolding save_block_in_file load_block_from_file
    load-save_block files files' b h =
        let (json, e, q) = >>=-eq-ok (ok_or (r.block_to_string b) rpc_error) _ h in
        let found = lookup-insert (r.number_of b) (r.number_of b) json files.full_block in
        let back = laws.block_from-to b json (ok_or-eq-ok _ _ e) in ground (arith, q, found, back)

    load-save_witness :
        (files files' : Files) (w : ExecutionWitness) (number : ℕ)
        → save_block_witness_in_file y n r files w number ≡ ok files'
        → (load_block_witness_from_file y n r files' number ≡ ok w)
          × (files'.full_block ≡ files.full_block)
    unfolding save_block_witness_in_file load_block_witness_from_file
    load-save_witness files files' w number h =
        let (json, e, q) = >>=-eq-ok (ok_or (r.witness_to_string w) rpc_error) _ h in
        let found = lookup-insert number number json files.execution_witness in
        let back = laws.witness_from-to w json (ok_or-eq-ok _ _ e) in
        (ground (arith, q, found, back), ground (arith, q))

    load_block-same :
        (files files' : Files) (number : ℕ)
        → files'.full_block ≡ files.full_block
        → load_block_from_file y n r files' number ≡ load_block_from_file y n r files number
    unfolding load_block_from_file
    load_block-same files files' number same = rw same

    -- What the program that stores the latest block has fetched and written.
    stored :
        (url : Bytes) (files files' : Files)
        → store_latest_block_and_witness y n r url files ≡ ok files'
        → (p : r.Provider) × (create_provider y n r url ≡ ok p)
          × (number : ℕ) × (get_last_block_number y n r p ≡ ok number)
          × (b : n.RpcBlock) × (fetch_full_block y n r p number ≡ ok (some b))
          × (w : ExecutionWitness) × (fetch_block_witness y n r p number ≡ ok w)
          × (load_block_from_file y n r files' number ≡ ok b)
          × (load_block_witness_from_file y n r files' number ≡ ok w)
    unfolding store_latest_block_and_witness
    stored url files files' h =
        let (p, e, h1) = >>=-eq-ok (unwrap (create_provider y n r url)) _ h in
        let (number, f, h2) = >>=-eq-ok (unwrap (get_last_block_number y n r p)) _ h1 in
        let (fetched, g, h3) = >>=-eq-ok (unwrap (fetch_full_block y n r p number)) _ h2 in
        let (b, i, h4) = >>=-eq-ok (expect fetched unwrapped_none) _ h3 in
        let (w, j, h5) = >>=-eq-ok (unwrap (fetch_block_witness y n r p number)) _ h4 in
        let (mid, k, h6) = >>=-eq-ok (unwrap (save_block_in_file y n r files b)) _ h5 in
        let got : fetched ≡ some b = ground (arith, i) in
        let fetched_b : fetch_full_block y n r p number ≡ ok (some b) =
          unwrap-eq-ok _ g ∙ ap ok got in
        let numbered = number_of-fetched p number b fetched_b in
        let block_back = load-save_block files mid b (unwrap-eq-ok _ k) in
        let (witness_back, same) = load-save_witness mid files' w number (unwrap-eq-ok _ h6) in
        (
          p,
          unwrap-eq-ok _ e,
          number,
          unwrap-eq-ok _ f,
          b,
          fetched_b,
          w,
          unwrap-eq-ok _ j,
          load_block-same mid files' number same
              ∙ subst (λ m. load_block_from_file y n r mid m ≡ ok b) numbered block_back,
          witness_back,
        )

    -- Once the latest block and its witness have been stored, executing the block from the files ends
    -- as executing it from the node does, if the node answers as before.
    pub execute_block_offline-stored :
        (x : External) (z : Zkvm x y) (url : Bytes) (files files' : Files)
        → store_latest_block_and_witness y n r url files ≡ ok files'
        → (p : r.Provider) × (create_provider y n r url ≡ ok p)
          × (number : ℕ) × (get_last_block_number y n r p ≡ ok number)
          × (execute_block_offline y n r x z files' number
              ≡ execute_block_with_rpc y n r x z url number)
    unfolding execute_block_offline execute_block_with_rpc
    execute_block_offline-stored x z url files files' h =
        let (p, e, number, f, b, g, w, i, block_back, witness_back) = stored url files files' h in
        (p, e, number, f, rw (e, g, i, block_back, witness_back))
