-- ===== src/Ethproofs.antt =====
-- ethproofs/src/lib.rs: the reports to Ethproofs as the HTTP requests that carry them. Each is
-- sent, with retries, in a task of its own, whose failure is only logged; `Encoder` is what the
-- client calls of base64 and what a float of seconds comes to in milliseconds.
use Prim.Native.String.{String, ◌++◌}
use reth_proofs.Prelude.{ℕ, Option, List, [], ◌∷◌}
use reth_proofs.External.{Bytes}

pub data JsonValue : Type 0 where
  number : ℕ → JsonValue
  string : String → JsonValue

-- A JSON object, with its fields in the order in which they are written.
abbrev pub Json : Type 0
Json = List (String × JsonValue)

pub record EthProofsClient : Type 0 where
  pub cluster_id : ℕ
  pub endpoint : String
  pub api_token : String

pub record Request : Type 0 where
  pub url : String
  pub headers : List (String × String)
  pub json : Json

pub record Encoder : Type 1 where
  pub base64_encode : Bytes → String
  pub base64_decode : String → Option Bytes
  -- `f32`, and `(elapsed * 1000.0) as u64`
  pub F32 : Type 0
  pub millis : F32 → ℕ

-- `post(..)` with the two headers and the body
unfoldable pub post : EthProofsClient → (path : String) → Json → Request
post this path json = record {
  url = this.endpoint ++ path;
  headers =
      ("Content-Type", "application/json") ∷ ("Authorization", "Bearer " ++ this.api_token) ∷ [];
  json = json;
}

unfoldable pub queued : EthProofsClient → (block_number : ℕ) → Request
unfolding post
queued this block_number =
    post this "/proofs/queued"
      (("block_number", number block_number) ∷ ("cluster_id", number this.cluster_id) ∷ [])

unfoldable pub proving : EthProofsClient → (block_number : ℕ) → Request
unfolding post
proving this block_number =
    post this "/proofs/proving"
      (("block_number", number block_number) ∷ ("cluster_id", number this.cluster_id) ∷ [])

module _ (c : Encoder) where
  unfoldable pub proved :
      EthProofsClient
      → (proof_bytes : Bytes) (block_number num_opcodes : ℕ) (elapsed : c.F32)
      → (verifier_id : String) → Request
  unfolding post
  proved this proof_bytes block_number num_opcodes elapsed verifier_id =
      post this "/proofs/proved" (
        ("proof", string (c.base64_encode proof_bytes))
        ∷ ("block_number", number block_number)
        ∷ ("proving_cycles", number num_opcodes)
        ∷ ("proving_time", number (c.millis elapsed))
        ∷ ("verifier_id", string verifier_id)
        ∷ ("cluster_id", number this.cluster_id)
        ∷ [])
