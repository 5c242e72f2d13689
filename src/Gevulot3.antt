-- ===== src/Gevulot3.antt =====
-- gevulot3/src: the orchestrator that proves each new block with ZisK. A main loop prepares inputs
-- and fills a bounded queue, a worker takes jobs from it, and a webhook server hands it the
-- results. A job id is a string that is only compared; it is a number here.
pub mod Channels
pub mod Queue
pub mod Worker
pub mod Webhook
pub mod Listener
pub mod System
pub mod Program
pub mod Reports
pub mod Submit
use reth_proofs.Prelude.{ℕ, Bool, Option, List}
use reth_proofs.External.{Bytes}

pub record ProveJob : Type 0 where
  pub block_number : ℕ
  pub zkvm_input : Bytes

pub record WebhookError : Type 0 where
  pub code : Bytes
  pub message : Bytes

pub record WebhookPayload : Type 0 where
  pub job_id : ℕ
  pub is_success : Bool
  pub duration_ms : ℕ
  pub proof : Option (List ℕ)
  pub executed_steps : Option ℕ
  pub timestamp : Bytes
  pub error : Option WebhookError

-- The arguments of cli.rs; urls are parsed by the command line and only handed on.
pub record RunArgs : Type 0 where
  pub http_rpc_url : Bytes
  pub ws_rpc_url : Bytes
  pub ethproofs_api_url : Bytes
  pub ethproofs_api_token : Bytes
  pub ethproofs_cluster_id : ℕ
  pub zisk_coordinator_url : Bytes
  pub zisk_compute_units : ℕ
  pub zisk_webhook_port : ℕ
  pub skip_pending_blocks : Bool
  pub prove_queue_capacity : ℕ
