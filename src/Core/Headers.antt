-- ===== src/Core/Headers.antt =====
-- `AncestorHeaders` of core/src/lib.rs. Block numbers are `u64`: in a release build, as the guest is,
-- `number - 1` wraps at zero.
pub mod Chain
pub mod Hashes
use reth_proofs.Prelude.{
  ℕ, ◌+◌, ◌-◌, ◌%◌, ◌^◌, Option, none, some, List, [], ◌∷◌, reverse, ◌==◌, if◌then◌else◌,
}
use reth_proofs.Outcome.{
  Outcome, ok, check, expect, header_not_decoded, invalid_header_block_number,
  invalid_header_parent_hash, parent_not_sealed, ◌>>=◌, ◌>>◌,
}
use reth_proofs.Table.{Table, insert}
use reth_proofs.External.{Bytes}
use reth_proofs.State.{ExecutionWitness}
use reth_proofs.Core.{Header, SealedHeader, Alloy, CurrentBlock}

-- Ancestors by block number descending: the parent of the current block first.
pub record AncestorHeaders : Type 0 where
  pub headers : List Header

-- `number - 1` on `u64`
abbrev pub pred_u64 : ℕ → ℕ
pred_u64 n = (n + 2 ^ 64 - 1) % 2 ^ 64

module _ (y : Alloy) where
  unfoldable pub decode_headers : List Bytes → Outcome (List Header)
  decode_headers [] = ok []
  decode_headers (header_bytes ∷ rest) = do
    header ← expect (y.decode_header header_bytes) header_not_decoded
    headers ← decode_headers rest
    ok (header ∷ headers)

  unfoldable pub from_execution_witness : ExecutionWitness → Outcome AncestorHeaders
  unfolding decode_headers
  from_execution_witness witness = do
    headers ← decode_headers (reverse witness.headers)
    ok (record { headers = headers })

  -- `SealedHeader::seal_slow`
  abbrev pub seal : Header → SealedHeader
  seal header = record { header = header; hash = y.hash_header header }

  -- The checks of a header against the one before it in the chain.
  unfoldable pub link : Option SealedHeader → SealedHeader → Table ℕ → Outcome (Table ℕ)
  link none sealed block_hashes = ok block_hashes
  link (some prev) sealed block_hashes = do
    check (sealed.number == pred_u64 prev.number)
        (invalid_header_block_number (pred_u64 prev.number) sealed.number)
    check (sealed.hash == prev.parent_hash)
        (invalid_header_parent_hash sealed.hash prev.parent_hash)
    ok (insert sealed.number sealed.hash block_hashes)

  -- The loop of `seal_and_validate`.
  unfoldable pub seal_headers :
      (parent_block_number : ℕ)
      → List Header
      → Table ℕ
      → (sealed_prev parent_sealed : Option SealedHeader) → Outcome (Table ℕ × Option SealedHeader)
  seal_headers parent_block_number [] block_hashes sealed_prev parent_sealed =
      ok (block_hashes, parent_sealed)
  seal_headers parent_block_number (header ∷ headers) block_hashes sealed_prev parent_sealed = do
    let sealed = seal header
    block_hashes' ← link sealed_prev sealed block_hashes
    seal_headers parent_block_number headers block_hashes' (some sealed)
        (if sealed.number == parent_block_number then some sealed else parent_sealed)

  unfoldable pub seal_and_validate :
      AncestorHeaders → CurrentBlock y → Outcome (Table ℕ × SealedHeader)
  seal_and_validate ancestors current_block = do
    let current_header = current_block.body.header
    (block_hashes, parent_sealed) ←
        seal_headers (pred_u64 current_header.number) (current_header ∷ ancestors.headers) [] none
          none
    parent ← expect parent_sealed parent_not_sealed
    ok (block_hashes, parent)
