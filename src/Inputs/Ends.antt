-- ===== src/Inputs/Ends.antt =====
-- How the preparing of an input ends: in a return, an `Err` or a panic.
use reth_proofs.Prelude.{
  ℕ, ◌≡◌, refl, List, [], ◌∷◌, ◌⊎◌, Bool, true, false, if◌then◌else◌, inl, inr, reverse,
}
use reth_proofs.Outcome.{
  Outcome, Panic, ok, err, panic, expect, ok_or, rpc_error, NeverErrs, unwrap-NeverErrs,
  expect-NeverErrs, >>=-NeverErrs, unwrapped_none, signer_not_recovered, in_library,
  header_not_decoded,
}
use reth_proofs.External.{Bytes, External}
use reth_proofs.State.{ExecutionWitness}
use reth_proofs.State.Build.{build_validated_tries, from_execution_witness}
use reth_proofs.Core.{Header, Alloy, Block}
use reth_proofs.Core.Headers.{decode_headers}
use reth_proofs.Core.Signers.{recover_signers, from_block}
use reth_proofs.Core.Bytecodes.{hash_pairs, build_map}
use reth_proofs.Core.TrieDb.{first}
use reth_proofs.Core.Input.{ZkvmInput, from_offline_rpc_data}
use reth_proofs.Frame.{prepare_zkvm_input}
use reth_proofs.Prototype.{Node}
use reth_proofs.Prototype.Rpc.{Rpc, fetch_block_witness, fetch_full_block}
use reth_proofs.Inputs.{Setting, dump_input, prepare_input}

module _ (x : External) (y : Alloy) where
  first-NeverErrs : (headers : List Header) → NeverErrs (first headers)
  first-NeverErrs [] = tt
  first-NeverErrs (h ∷ headers) = tt

  decode_headers-NeverErrs : (headers : List Bytes) → NeverErrs (decode_headers y headers)
  unfolding decode_headers
  decode_headers-NeverErrs [] = tt
  decode_headers-NeverErrs (h ∷ headers) =
      >>=-NeverErrs (expect (y.decode_header h) header_not_decoded) _
        (expect-NeverErrs (y.decode_header h) header_not_decoded)
        (λ _.
          >>=-NeverErrs (decode_headers y headers) _ (decode_headers-NeverErrs headers) (λ _. tt))

  recover_signers-NeverErrs : (txs : List y.Transaction) → NeverErrs (recover_signers y txs)
  unfolding recover_signers
  recover_signers-NeverErrs [] = tt
  recover_signers-NeverErrs (tx ∷ txs) =
      >>=-NeverErrs _ _
        (expect-NeverErrs (y.recover_from_prehash tx (y.signature_hash tx)) signer_not_recovered)
        (λ _. >>=-NeverErrs (recover_signers y txs) _ (recover_signers-NeverErrs txs) (λ _. tt))

  hash_pairs-NeverErrs : (codes_list : List Bytes) → NeverErrs (hash_pairs y codes_list)
  unfolding hash_pairs
  hash_pairs-NeverErrs [] = tt
  hash_pairs-NeverErrs (encoded ∷ codes_list) =
      >>=-NeverErrs _ _ (expect-NeverErrs (y.new_raw encoded) in_library)
        (λ _. >>=-NeverErrs (hash_pairs y codes_list) _ (hash_pairs-NeverErrs codes_list) (λ _. tt))

  from_offline_rpc_data-NeverErrs :
      (block : Block y) (w : ExecutionWitness) → NeverErrs (from_offline_rpc_data x y block w)
  unfolding from_offline_rpc_data reth_proofs.Core.Headers.from_execution_witness from_block
      from_execution_witness reth_proofs.Core.Bytecodes.from_execution_witness build_map
  from_offline_rpc_data-NeverErrs block w =
      >>=-NeverErrs _ _
        (>>=-NeverErrs (decode_headers y (reverse w.headers)) _
          (decode_headers-NeverErrs (reverse w.headers)) (λ _. tt))
        (λ a. >>=-NeverErrs _ _ (first-NeverErrs a.headers) (λ parent.
          >>=-NeverErrs _ _
            (>>=-NeverErrs _ _ (recover_signers-NeverErrs block.transactions) (λ _. tt))
            (λ _.
              >>=-NeverErrs _ _
                (>>=-NeverErrs _ _ (unwrap-NeverErrs (build_validated_tries x w parent.state_root))
                  (λ _. tt))
                (λ _.
                  >>=-NeverErrs _ _
                    (>>=-NeverErrs _ _ (>>=-NeverErrs _ _ (hash_pairs-NeverErrs w.codes) (λ _. tt))
                      (λ _. tt))
                    (λ _. tt)))))

  pub prepare_zkvm_input-NeverErrs :
      (serialize : ZkvmInput x y → Outcome Bytes) (w : ExecutionWitness) (block : Block y)
      → NeverErrs (prepare_zkvm_input x y serialize w block)
  unfolding prepare_zkvm_input
  prepare_zkvm_input-NeverErrs serialize w block =
      >>=-NeverErrs _ _ (from_offline_rpc_data-NeverErrs block w)
        (λ input. >>=-NeverErrs _ _ (unwrap-NeverErrs (serialize input)) (λ _. tt))

pub ok_or_panic {ℓ} :
    {A : Type ℓ} (m : Outcome A)
    → NeverErrs m
    → ((a : A) × (m ≡ ok a)) ⊎ ((p : Panic) × (m ≡ panic p))
ok_or_panic (ok a) never = inl (a, refl)
ok_or_panic (err e) never = absurd never
ok_or_panic (panic p) never = inr (p, refl)

module _ (x : External) (y : Alloy) (n : Node y) (r : Rpc y n) (setting : Setting x y n r) where
  dump_input-NeverErrs :
      (block : n.RpcBlock) (w : ExecutionWitness) → NeverErrs (dump_input x y n r setting block w)
  unfolding dump_input
  dump_input-NeverErrs block w =
      >>=-NeverErrs _ _ (unwrap-NeverErrs (ok_or (r.block_to_string block) rpc_error))
        (λ block_json. >>=-NeverErrs _ _ (unwrap-NeverErrs (setting.write block_json)) (λ _.
          >>=-NeverErrs _ _ (unwrap-NeverErrs (ok_or (r.witness_to_string w) rpc_error))
            (λ witness_json. unwrap-NeverErrs (setting.write witness_json))))

  dumped-NeverErrs :
      (dump : Bool) (m : Outcome (Unit {0})) → NeverErrs m → NeverErrs (if dump then m else ok tt)
  dumped-NeverErrs true m never = never
  dumped-NeverErrs false m never = tt

  -- Preparing an input never ends in an `Err`: it returns bytes or panics.
  pub prepare_input-NeverErrs : (number : ℕ) → NeverErrs (prepare_input x y n r setting number)
  unfolding prepare_input
  prepare_input-NeverErrs number =
      let provider = setting.http_provider in
      >>=-NeverErrs _ _ (unwrap-NeverErrs (fetch_block_witness y n r provider number)) (λ w.
        >>=-NeverErrs _ _ (unwrap-NeverErrs (fetch_full_block y n r provider number)) (λ fetched.
          >>=-NeverErrs _ _ (expect-NeverErrs fetched unwrapped_none) (λ block.
            >>=-NeverErrs _ _
              (dumped-NeverErrs setting.dump_raw_input _ (dump_input-NeverErrs block w))
              (λ _.
                prepare_zkvm_input-NeverErrs x y setting.serialize w
                  (n.rpc_block_to_consensus_block block)))))
