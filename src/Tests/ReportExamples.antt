-- ===== src/Tests/ReportExamples.antt =====
-- The reports of the ZisK orchestrator, the commands of the Bento orchestrator, the KZG check, and
-- the state that the guest vouches for, at the example block.
use reth_proofs.Kzg.{verify_kzg_proof, verify_kzg_proof_iff}
use reth_proofs.Prelude.{
  zero, suc, Bool, Option, ◌↔◌, ◌≢◌, ℕ, ◌≡◌, refl, true, some, none, List, [], ◌∷◌, arith,
}
use reth_proofs.Outcome.{ok, err, blob_verify_kzg_proof_failed}
use reth_proofs.Table.{lookup}
use reth_proofs.External.{Bytes}
use reth_proofs.External.Toy.{toy, toy-TrieLaws, account-CodecLaws}
use reth_proofs.State.{Risc0ZkvmTrie}
use reth_proofs.State.Validate.Synced.{IsSynced}
use reth_proofs.Core.Input.{ZkvmInput}
use reth_proofs.Guest.Accepts.{IsRooted, db_of}
use reth_proofs.Guest.Accepts.Whole.{block_of}
use reth_proofs.Guest.Accepts.State.{AccountsFor, guest_handler-state}
use reth_proofs.Frame.{to_le_bytes}
use reth_proofs.Ethproofs.{EthProofsClient, Request, Encoder}
use reth_proofs.Gevulot3.Worker.{process_job, bytes_of_proof}
use reth_proofs.Gevulot3.Reports.{requests, Carries, requests-process_job}
use reth_proofs.Gevulot2.Commands.{PrepareFromRpcArgs, Disk, Json, Network}
use reth_proofs.Tests.World.{toy_alloy, toy_zkvm}
use reth_proofs.Tests.GuestExamples.{accepted, framed}
use reth_proofs.Tests.StateExamples.{diff-IsDiff, diff-CoversStorages}
use reth_proofs.Tests.ZiskExamples.{job, replies, payload}
use reth_proofs.Tests.BentoExamples.{bento}

guest_handler-state_example :
    (input : ZkvmInput toy toy_alloy) × (toy_zkvm.deserialize (1 ∷ []) ≡ some input)
    × IsRooted toy toy_alloy input.ancestor_headers.headers
        (toy.hash_slow input.ethereum_state.state_trie.inner)
    × IsSynced toy input.ethereum_state.state_trie input.ethereum_state.storage_tries
    × (output : toy_zkvm.BlockExecutionOutput) × (toy_zkvm.execute
          (db_of toy toy_alloy input)
          (block_of toy toy_alloy toy_zkvm input)
        ≡ ok output)
    × (s : Risc0ZkvmTrie toy) × (toy.hash_slow s.state_trie.inner
        ≡ input.current_block.body.header.state_root)
    × IsSynced toy s.state_trie s.storage_tries
    × ((a : ℕ)
        → AccountsFor toy toy-TrieLaws account-CodecLaws input.ethereum_state s a
            (lookup a (toy_zkvm.from_bundle_state output).storages)
            (lookup a (toy_zkvm.from_bundle_state output).accounts))
guest_handler-state_example =
    guest_handler-state toy toy-TrieLaws account-CodecLaws toy_alloy toy_zkvm (1 ∷ [])
      (λ o. diff-IsDiff) (λ o. diff-CoversStorages) accepted

-- Base64 of the eight bytes of the word 258
abbrev encoder : Encoder
encoder = record {
  base64_encode = λ bytes. "AgEAAAAAAAA=";
  base64_decode = λ encoded. some (2 ∷ 1 ∷ 0 ∷ 0 ∷ 0 ∷ 0 ∷ 0 ∷ 0 ∷ []);
  F32 = ℕ;
  millis = λ elapsed. elapsed;
}

abbrev client : EthProofsClient
client = record { cluster_id = 1; endpoint = "https://ethproofs.org/api/v0"; api_token = "token" }

base64_decoded :
    encoder.base64_decode (encoder.base64_encode (bytes_of_proof (258 ∷ [])))
    ≡ some (bytes_of_proof (258 ∷ []))
unfolding bytes_of_proof to_le_bytes
base64_decoded = refl

requests-process_job_example :
    (report : Request) × (requests encoder client 9 (process_job job replies)
      ≡ reth_proofs.Ethproofs.proving client 100 ∷ report ∷ [])
    × Carries encoder client 9 report.json 100 (258 ∷ []) 5
requests-process_job_example =
    requests-process_job encoder client 9 job replies (258 ∷ []) 5 base64_decoded
      (refl, (7, refl), (payload, refl, refl, refl, refl)) (omega arith, tt)

abbrev json : Json toy toy_alloy bento
json = record { block_from_str = λ text. none; witness_from_str = λ text. none }

abbrev disk_of : List (ℕ × Bytes) → Disk
disk_of files = record { files = files; writable = λ path. true }

abbrev prepare_args : PrepareFromRpcArgs
prepare_args = record { block_number = 200; http_rpc_url = 1 ∷ []; output_path = 2 }

abbrev after_prepare : Disk
after_prepare = disk_of ((2, framed) ∷ [])

abbrev network : Network toy toy_alloy bento
network = record {
  connect_ws = λ url. ok tt;
  subscribe_blocks = λ url. ok (200 ∷ []);
  get_block_number = λ provider. ok 250;
}

abbrev zeros : ℕ → Bytes
zeros zero = []
zeros (suc n) = 0 ∷ zeros n

verify_kzg_proof_iff_example :
    ((verify_kzg_proof
          (λ commitment z y proof. some true)
          (zeros 32)
          (zeros 32)
          (zeros 48)
          (zeros 48)
        ≡ ok tt)
      ↔ (◌≡◌ {A = Option Bool} (some true) (some true)))
    × ((verify_kzg_proof
            (λ commitment z y proof. some true)
            (zeros 32)
            (zeros 32)
            (zeros 48)
            (zeros 48)
          ≡ err blob_verify_kzg_proof_failed)
        ↔ (◌≢◌ {A = Option Bool} (some true) (some true)))
verify_kzg_proof_iff_example =
    verify_kzg_proof_iff (λ commitment z y proof. some true) (zeros 32) (zeros 32) (zeros 48)
      (zeros 48) refl refl refl refl
