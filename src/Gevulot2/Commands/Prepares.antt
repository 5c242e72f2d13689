-- ===== src/Gevulot2/Commands/Prepares.antt =====
-- When the command `prepare from-rpc` writes its file, and what the file then holds.
use reth_proofs.Prelude.{ℕ, ◌+◌, ◌-◌, ◌≡◌, ◌≤◌, ◌↔◌, true, ltb, arith, Bool-cases, inl, inr}
use reth_proofs.Outcome.{Outcome, ok, >>=-eq-ok}
use reth_proofs.Table.{insert}
use reth_proofs.Table.Laws.{lookup-insert}
use reth_proofs.External.{Bytes, External}
use reth_proofs.Core.{Alloy}
use reth_proofs.Gevulot2.{Bento}
use reth_proofs.Gevulot2.Blocks.{prepare_input, prepare_from_rpc}
use reth_proofs.Gevulot2.Commands.{Disk, read_file, write_file}

pub write_file_iff :
    (disk disk' : Disk) (path : ℕ) (bytes : Bytes)
    → (write_file disk path bytes ≡ ok disk') ↔ (
        (disk.writable path ≡ true)
        × (disk' ≡ record disk { files = insert path bytes disk.files }))
unfolding write_file
write_file_iff disk disk' path bytes =
    (λ h. ground (arith, h), λ (writable, same). rw (writable, same))

pub read_file-write_file :
    (disk disk' : Disk) (path : ℕ) (bytes : Bytes)
    → write_file disk path bytes ≡ ok disk'
    → read_file disk' path ≡ ok bytes
unfolding read_file write_file
read_file-write_file disk disk' path bytes h =
    ground (arith, h, lookup-insert path path bytes disk.files)

module _ (x : External) (y : Alloy) (b : Bento x y) where
  -- The test for old blocks, with the subtraction that stops at 0.
  pub prepare_from_rpc_iff :
      (latest : Outcome ℕ) (n : ℕ) (input : Bytes)
      → (prepare_from_rpc x y b latest n ≡ ok input) ↔ (
          ((last : ℕ) × (latest ≡ ok last) × (last ≤ n + 100)) × (prepare_input x y b n ≡ ok input))
  unfolding prepare_from_rpc
  prepare_from_rpc_iff latest n input = (
    (λ h.
        let (last, e, q) = >>=-eq-ok latest _ h in
        elim (Bool-cases (ltb n (last - 100))) [
          | inl old ↦ cc (rw old at q)
          | inr recent ↦ ((last, e, ground (arith, recent)), rw recent at q)
        ]),
    λ ((last, e, recent), prepared). elim (Bool-cases (ltb n (last - 100))) [
      | inl old ↦ absurd (ground (arith, old, recent))
      | inr young ↦ rw (e, young) prepared
    ],
  )
