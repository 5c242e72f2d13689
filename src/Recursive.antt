-- ===== src/Recursive.antt =====
-- zkvm/risc0-host/src/main-recursive.rs: the segments of a run are proved one by one, lifted, and the
-- receipts joined in rounds. Proving, lifting and joining are the prover's.
pub mod Order
use reth_proofs.Prelude.{ℕ, zero, suc, List, [], ◌∷◌, length}
use reth_proofs.Outcome.{Outcome, ok, panic, unwrap, index_out_of_bounds, ◌>>=◌}

pub record ProverServer : Type 1 where
  pub Segment : Type 0
  pub SegmentReceipt : Type 0
  pub SuccinctReceipt : Type 0
  pub prove_segment : Segment → Outcome SegmentReceipt
  pub lift : SegmentReceipt → Outcome SuccinctReceipt
  pub join : SuccinctReceipt → SuccinctReceipt → Outcome SuccinctReceipt

module _ (p : ProverServer) where
  -- One pass over `receipts.chunks(2)`.
  unfoldable pub join_pairs : List p.SuccinctReceipt → Outcome (List p.SuccinctReceipt)
  join_pairs [] = ok []
  join_pairs (a ∷ []) = ok (a ∷ [])
  join_pairs (a ∷ b ∷ receipts) = do
    joined ← unwrap (p.join a b)
    joined_receipts ← join_pairs receipts
    ok (joined ∷ joined_receipts)

  -- The loop of `join_many`, on fuel, and its final `receipts.remove(0)`.
  unfoldable pub join_rounds : ℕ → List p.SuccinctReceipt → Outcome p.SuccinctReceipt
  join_rounds fuel [] = panic index_out_of_bounds
  join_rounds fuel (a ∷ []) = ok a
  join_rounds zero (a ∷ b ∷ receipts) = panic index_out_of_bounds
  join_rounds (suc fuel) (a ∷ b ∷ receipts) = do
    joined ← join_pairs (a ∷ b ∷ receipts)
    join_rounds fuel joined

  -- Each round leaves fewer receipts, so that there are not more rounds than receipts.
  unfoldable pub join_many : List p.SuccinctReceipt → Outcome p.SuccinctReceipt
  join_many receipts = join_rounds (length receipts) receipts

  -- The loop of `main` over the session's segments.
  unfoldable pub prove_segments : List p.Segment → Outcome (List p.SuccinctReceipt)
  prove_segments [] = ok []
  prove_segments (segment ∷ segments) = do
    seg_receipt ← p.prove_segment segment
    succinct ← p.lift seg_receipt
    receipts ← prove_segments segments
    ok (succinct ∷ receipts)

  unfoldable pub prove_and_join : List p.Segment → Outcome p.SuccinctReceipt
  prove_and_join segments = do receipts ← prove_segments segments; join_many receipts
