-- ===== src/Tests/RecursiveExamples.antt =====
-- The theorems on the recursive prover at three segments.
use reth_proofs.Prelude.{ℕ, ◌≡◌, refl, List, [], ◌∷◌, ◌++◌, arith}
use reth_proofs.Outcome.{ok}
use reth_proofs.Recursive.{ProverServer, join_many}
use reth_proofs.Recursive.Order.{ProverLaws, join_many_lem}

-- Receipts are lists of segments.
abbrev pub prover : ProverServer
prover = record {
  Segment = ℕ;
  SegmentReceipt = ℕ;
  SuccinctReceipt = List ℕ;
  prove_segment = λ s. ok s;
  lift = λ r. ok (r ∷ []);
  join = λ a b. ok (a ++ b);
}

pub claim_of_proved : (segment r : ℕ) → prover.prove_segment segment ≡ ok r → r ∷ [] ≡ segment ∷ []
claim_of_proved segment r h = ground (arith, h)

pub claim_of_lifted : (r : ℕ) (t : List ℕ) → prover.lift r ≡ ok t → t ≡ r ∷ []
claim_of_lifted r t h = ground (arith, h)

pub claim_of_joined : (a b c : List ℕ) → prover.join a b ≡ ok c → c ≡ a ++ b
claim_of_joined a b c h = cc

-- Every list of segments is a session.
unfoldable pub prover-ProverLaws : ProverLaws prover
prover-ProverLaws = record {
  seg_claim = λ r. r ∷ [];
  claim = λ r. r;
  claim-prove_segment = claim_of_proved;
  claim-lift = claim_of_lifted;
  IsSession = λ segments. Unit {0};
  claim-join = claim_of_joined;
  join-adjacent = λ a b before after session. (a ++ b, refl);
}

join_many_lem_example :
    (r : List ℕ) × (join_many prover ((1 ∷ []) ∷ (2 ∷ []) ∷ (3 ∷ []) ∷ []) ≡ ok r)
    × (r ≡ 1 ∷ 2 ∷ 3 ∷ [])
unfolding prover-ProverLaws
join_many_lem_example =
    join_many_lem prover prover-ProverLaws ((1 ∷ []) ∷ (2 ∷ []) ∷ (3 ∷ []) ∷ []) (λ h. cc) tt
