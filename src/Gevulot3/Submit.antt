-- ===== src/Gevulot3/Submit.antt =====
-- `submit_proof_job` of gevulot3/src/zisk.rs. `Coordinator` is what it calls of tonic and of the gRPC
-- client, of which the connection is kept here as a number; `none` is a failure.
use reth_proofs.Prelude.{ℕ, ◌*◌, ◌≡◌, ◌↔◌, Option, none, some, arith}
use reth_proofs.Outcome.{
  Outcome, ok, err, ok_or, invalid_url, connection_failed, launch_failed, job_rejected,
  empty_response, ◌>>=◌, >>=-eq-ok,
}
use reth_proofs.External.{Bytes}

pub data InputMode : Type 0 where
  none_mode : InputMode
  data_mode : InputMode

pub record LaunchProofRequest : Type 0 where
  pub compute_capacity : ℕ
  pub data_id : Bytes
  pub input_mode : InputMode
  pub input_path : Option Bytes
  pub simulated_node : Option ℕ

-- `launch_proof_response::Result`
pub data LaunchResult : Type 0 where
  launched : (job_id : ℕ) → LaunchResult
  refused : (code message : Bytes) → LaunchResult

pub record Coordinator : Type 1 where
  pub Endpoint : Type 0
  pub Channel : Type 0
  pub from_shared : (url : Bytes) → Option Endpoint
  pub connect : Endpoint → Option Channel
  pub launch_proof :
      Channel → (max_message_size : ℕ) → LaunchProofRequest → Option (Option LaunchResult)

abbrev pub max_message_size : ℕ
max_message_size = 50 * 1024 * 1024

-- The match on the response's result
unfoldable pub job_id_of : Option LaunchResult → Outcome ℕ
job_id_of (some (launched job_id)) = ok job_id
job_id_of (some (refused code message)) = err job_rejected
job_id_of none = err empty_response

unfoldable pub launch_request : (data_id input_file_path : Bytes) → ℕ → LaunchProofRequest
launch_request data_id input_file_path compute_capacity = record {
  compute_capacity = compute_capacity;
  data_id = data_id;
  input_mode = data_mode;
  input_path = some input_file_path;
  simulated_node = none;
}

module _ (d : Coordinator) where
  -- `data_id` is the new uuid.
  unfoldable pub submit_proof_job :
      (data_id coordinator_url input_file_path : Bytes) → (compute_capacity : ℕ) → Outcome ℕ
  submit_proof_job data_id coordinator_url input_file_path compute_capacity = do
    endpoint ← ok_or (d.from_shared coordinator_url) invalid_url
    channel ← ok_or (d.connect endpoint) connection_failed
    response ←
        ok_or
          (d.launch_proof channel max_message_size
            (launch_request data_id input_file_path compute_capacity))
          launch_failed
    job_id_of response

  job_id_of-ok :
      (response : Option LaunchResult) (id : ℕ)
      → job_id_of response ≡ ok id
      → response ≡ some (launched id)
  unfolding job_id_of
  job_id_of-ok (some (launched job_id)) id h = ground (arith, h)
  job_id_of-ok (some (refused code message)) id h = cc
  job_id_of-ok none id h = cc

  -- A job is submitted with an id exactly if the coordinator is reached at its url and launches the
  -- proof of the input file under that id.
  pub submit_proof_job_iff :
      (data_id coordinator_url input_file_path : Bytes) (compute_capacity job_id : ℕ)
      → ((submit_proof_job data_id coordinator_url input_file_path compute_capacity ≡ ok job_id) ↔ (
          (endpoint : d.Endpoint) × (d.from_shared coordinator_url ≡ some endpoint)
          × (channel : d.Channel) × (d.connect endpoint ≡ some channel)
          × (d.launch_proof channel max_message_size
                (launch_request data_id input_file_path compute_capacity)
              ≡ some (some (launched job_id)))))
  unfolding submit_proof_job job_id_of
  submit_proof_job_iff data_id url path capacity job_id = (
    λ h.
        let (endpoint, e, q) = >>=-eq-ok (ok_or (d.from_shared url) invalid_url) _ h in
        let (channel, f, p) = >>=-eq-ok (ok_or (d.connect endpoint) connection_failed) _ q in
        let launch =
          d.launch_proof channel max_message_size (launch_request data_id path capacity) in
        let (response, g, t) = >>=-eq-ok (ok_or launch launch_failed) _ p in
        (
          endpoint,
          ground (arith, e),
          channel,
          ground (arith, f),
          ground (arith, g, job_id_of-ok response job_id t),
        ),
    λ (endpoint, e, channel, f, g). rw (e, f, g),
  )
