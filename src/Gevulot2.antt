-- ===== src/Gevulot2.antt =====
-- gevulot2/src/main.rs: the orchestrator that proves every hundredth block on a Bento cluster.
-- `Bento` is what it calls of the node, bincode and the Bonsai client. Image, input and session ids
-- and urls are strings that are only handed on; they are numbers here.
pub mod Session
pub mod Blocks
pub mod Commands
use reth_proofs.Prelude.{ℕ, Option}
use reth_proofs.Outcome.{Outcome}
use reth_proofs.External.{Bytes, External}
use reth_proofs.Core.{Alloy}
use reth_proofs.Prototype.{Node}
use reth_proofs.Prototype.Rpc.{Rpc}
use reth_proofs.Inputs.{Setting}

pub data Status : Type 0 where
  running : Status
  succeeded : Status
  other_status : Status

pub record SessionStats : Type 0 where
  pub cycles : ℕ
  pub total_cycles : ℕ
  pub segments : ℕ

pub record SessionStatus : Type 0 where
  pub status : Status
  pub stats : Option SessionStats
  pub receipt_url : Option ℕ

pub record BonsaiInput : Type 0 where
  pub image_id_hex : ℕ
  pub input_id : ℕ

pub record Bento (x : External) (y : Alloy) : Type 1 where
  pub node : Node y
  pub rpc : Rpc y node
  pub setting : Setting x y node rpc
  pub Receipt : Type 0
  pub image_id : ℕ
  pub upload_img : ℕ → Outcome (Unit {0})
  pub upload_input : Bytes → Outcome ℕ
  pub create_session : ℕ → ℕ → Outcome ℕ
  -- The answer to a session's check of the given number.
  pub session_status : ℕ → ℕ → Outcome SessionStatus
  pub download : ℕ → Outcome Bytes
  pub deserialize_receipt : Bytes → Outcome Receipt
  pub serialize_receipt : Receipt → Outcome Bytes
