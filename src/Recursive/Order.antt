-- ===== src/Recursive/Order.antt =====
-- What a joined receipt stands for. `claim` is any reading of receipts as sequences for which joining
-- is concatenation.
use reth_proofs.Prelude.{
  ℕ, zero, suc, ◌≡◌, ◌≢◌, ◌≤◌, refl, List, [], ◌∷◌, ◌++◌, length, arith, ap, ◌∙◌, sym, subst, ◌+◌,
}
use reth_proofs.Outcome.{ok, unwrap, >>=-eq-ok, unwrap-eq-ok}
use reth_proofs.Recursive.{
  ProverServer, join_pairs, join_rounds, join_many, prove_segments, prove_and_join,
}

-- What a prover's calls claim of the segments that they are about: a receipt of a segment claims this
-- segment, lifting keeps the claim, and a join that succeeds appends the claims. Joining is only sure
-- to succeed on receipts of adjacent parts of the segments of one session.
pub record ProverLaws (p : ProverServer) : Type 1 where
  pub seg_claim : p.SegmentReceipt → List p.Segment
  pub claim : p.SuccinctReceipt → List p.Segment
  pub IsSession : List p.Segment → Type 0
  pub claim-prove_segment :
      (s : p.Segment) (r : p.SegmentReceipt) → p.prove_segment s ≡ ok r → seg_claim r ≡ s ∷ []
  pub claim-lift :
      (r : p.SegmentReceipt) (t : p.SuccinctReceipt) → p.lift r ≡ ok t → claim t ≡ seg_claim r
  pub claim-join : (a b c : p.SuccinctReceipt) → p.join a b ≡ ok c → claim c ≡ claim a ++ claim b
  pub join-adjacent :
      (a b : p.SuccinctReceipt) (before after : List p.Segment)
      → IsSession (before ++ (claim a ++ (claim b ++ after)))
      → (c : p.SuccinctReceipt) × (p.join a b ≡ ok c)

ok_injective {ℓ} : {A : Type ℓ} {a b : A} → ok a ≡ ok b → a ≡ b
ok_injective h = cc

module _ (p : ProverServer) (laws : ProverLaws p) where
  abbrev pub claims : List p.SuccinctReceipt → List p.Segment
  claims [] = []
  claims (r ∷ receipts) = laws.claim r ++ claims receipts

  append_assoc : (xs ys zs : List p.Segment) → (xs ++ ys) ++ zs ≡ xs ++ (ys ++ zs)
  append_assoc [] ys zs = refl
  append_assoc (x ∷ xs) ys zs = ap (λ t. x ∷ t) (append_assoc xs ys zs)

  append_nil : (xs : List p.Segment) → xs ++ [] ≡ xs
  append_nil [] = refl
  append_nil (x ∷ xs) = ap (λ t. x ∷ t) (append_nil xs)

  -- A round that succeeds keeps the claims.
  claims-join_pairs :
      (receipts joined : List p.SuccinctReceipt)
      → join_pairs p receipts ≡ ok joined
      → claims joined ≡ claims receipts
  unfolding join_pairs
  claims-join_pairs [] joined h = ap claims (sym (ok_injective h))
  claims-join_pairs (a ∷ []) joined h = ap claims (sym (ok_injective h))
  claims-join_pairs (a ∷ b ∷ receipts) joined h =
      let (c, e, q) = >>=-eq-ok (unwrap (p.join a b)) _ h in
      let (others, f, r) = >>=-eq-ok (join_pairs p receipts) _ q in
      let same = laws.claim-join a b c (unwrap-eq-ok (p.join a b) e) in
      ap claims (sym (ok_injective r))
      ∙ ap (λ k. k ++ claims others) same
      ∙ ap (λ k. (laws.claim a ++ laws.claim b) ++ k) (claims-join_pairs receipts others f)
      ∙ append_assoc (laws.claim a) (laws.claim b) (claims receipts)

  claim-join_rounds :
      (fuel : ℕ) (receipts : List p.SuccinctReceipt) (r : p.SuccinctReceipt)
      → join_rounds p fuel receipts ≡ ok r
      → laws.claim r ≡ claims receipts
  unfolding join_rounds
  claim-join_rounds fuel [] r h = cc
  claim-join_rounds zero (a ∷ []) r h =
      ap laws.claim (sym (ok_injective h)) ∙ sym (append_nil (laws.claim a))
  claim-join_rounds (suc fuel) (a ∷ []) r h =
      ap laws.claim (sym (ok_injective h)) ∙ sym (append_nil (laws.claim a))
  claim-join_rounds zero (a ∷ b ∷ receipts) r h = cc
  claim-join_rounds (suc fuel) (a ∷ b ∷ receipts) r h =
      let (joined, e, q) = >>=-eq-ok (join_pairs p (a ∷ b ∷ receipts)) _ h in
      claim-join_rounds fuel joined r q ∙ claims-join_pairs (a ∷ b ∷ receipts) joined e

  -- A round on adjacent parts of one session succeeds and halves the number of receipts, rounded up.
  join_pairs_lem :
      (before : List p.Segment) (receipts : List p.SuccinctReceipt)
      → laws.IsSession (before ++ claims receipts)
      → (joined : List p.SuccinctReceipt) × (join_pairs p receipts ≡ ok joined)
        × (length joined + length joined ≤ suc (length receipts))
        × (length receipts ≤ length joined + length joined)
  unfolding join_pairs
  join_pairs_lem before [] session = ([], refl, omega arith, omega arith)
  join_pairs_lem before (a ∷ []) session = (a ∷ [], refl, omega arith, omega arith)
  join_pairs_lem before (a ∷ b ∷ receipts) session =
      let (c, e) = laws.join-adjacent a b before (claims receipts) session in
      let ahead = before ++ (laws.claim a ++ laws.claim b) in
      let grouped =
        ap (λ k. before ++ k) (sym (append_assoc (laws.claim a) (laws.claim b) (claims receipts)))
        ∙ sym (append_assoc before (laws.claim a ++ laws.claim b) (claims receipts)) in
      let (joined, f, upper, lower) =
        join_pairs_lem ahead receipts (subst laws.IsSession grouped session) in
      (c ∷ joined, rw (e, f), omega (arith, upper), omega (arith, lower))

  join_rounds_lem :
      (fuel : ℕ) (receipts : List p.SuccinctReceipt)
      → receipts ≢ []
      → laws.IsSession (claims receipts)
      → length receipts ≤ suc fuel
      → (r : p.SuccinctReceipt) × (join_rounds p fuel receipts ≡ ok r)
  unfolding join_rounds
  join_rounds_lem fuel [] full session le = absurd (full refl)
  join_rounds_lem zero (a ∷ []) full session le = (a, refl)
  join_rounds_lem (suc fuel) (a ∷ []) full session le = (a, refl)
  join_rounds_lem zero (a ∷ b ∷ receipts) full session le = absurd (omega (arith, le))
  join_rounds_lem (suc fuel) (a ∷ b ∷ receipts) full session le =
      let (joined, e, upper, lower) = join_pairs_lem [] (a ∷ b ∷ receipts) session in
      let left : joined ≢ [] = λ empty. ground (arith, lower, empty) in
      let kept = claims-join_pairs (a ∷ b ∷ receipts) joined e in
      let (r, f) =
        join_rounds_lem fuel joined left (subst laws.IsSession (sym kept) session)
          (omega (arith, upper, le)) in
      (r, rw (e, f))

  -- Joining one or more receipts that are about adjacent parts, in order, of one session returns a
  -- receipt, which claims these parts in their order.
  pub join_many_lem :
      (receipts : List p.SuccinctReceipt)
      → receipts ≢ []
      → laws.IsSession (claims receipts)
      → (r : p.SuccinctReceipt) × (join_many p receipts ≡ ok r) × (laws.claim r ≡ claims receipts)
  unfolding join_many
  join_many_lem receipts full session =
      let (r, e) = join_rounds_lem (length receipts) receipts full session (omega arith) in
      (r, e, claim-join_rounds (length receipts) receipts r e)

  claims-prove_segments :
      (segments : List p.Segment) (receipts : List p.SuccinctReceipt)
      → prove_segments p segments ≡ ok receipts
      → claims receipts ≡ segments
  unfolding prove_segments
  claims-prove_segments [] receipts h =
      let same : [] ≡ receipts = ground (arith, h) in subst (λ r. claims r ≡ []) same refl
  claims-prove_segments (segment ∷ segments) receipts h =
      let (seg_receipt, e, q) = >>=-eq-ok (p.prove_segment segment) _ h in
      let (succinct, f, r) = >>=-eq-ok (p.lift seg_receipt) _ q in
      let (others, g, t) = >>=-eq-ok (prove_segments p segments) _ r in
      let same : succinct ∷ others ≡ receipts = ground (arith, t) in
      subst (λ r. claims r ≡ segment ∷ segments) same
        (rw (
          laws.claim-lift seg_receipt succinct f,
          laws.claim-prove_segment segment seg_receipt e,
          claims-prove_segments segments others g,
        ))

  -- The receipt of a whole run claims the run's segments, all of them and in order.
  pub prove_and_join_lem :
      (segments : List p.Segment) (r : p.SuccinctReceipt)
      → prove_and_join p segments ≡ ok r
      → laws.claim r ≡ segments
  unfolding prove_and_join join_many
  prove_and_join_lem segments r h =
      let (receipts, e, q) = >>=-eq-ok (prove_segments p segments) _ h in
      claim-join_rounds (length receipts) receipts r q ∙ claims-prove_segments segments receipts e
