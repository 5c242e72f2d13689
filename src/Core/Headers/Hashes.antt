-- ===== src/Core/Headers/Hashes.antt =====
-- The map of block hashes and the parent that `seal_and_validate` returns.
use reth_proofs.Prelude.{
  ℕ, ◌^◌, ◌≤◌, ◌<◌, ◌≡◌, ◌≢◌, refl, Option, none, some, List, [], ◌∷◌, ◌==◌, if◌then◌else◌, arith,
  ==_iff, length, ◌∙◌,
}
use reth_proofs.Outcome.{ok}
use reth_proofs.Table.{Table, lookup, insert}
use reth_proofs.Table.Laws.{lookup-insert}
use reth_proofs.Core.{Header, SealedHeader, Alloy, CurrentBlock}
use reth_proofs.Core.Headers.{AncestorHeaders, pred_u64, seal, seal_and_validate}
use reth_proofs.Core.Headers.Chain.{
  IsChain, hashes_of, parent_of, seal_and_validate-IsChain, seal_and_validate_of_IsChain,
  seal_and_validate_iff,
}

module _ (y : Alloy) where
  -- The hash of the header with a given number.
  abbrev pub hash_at : ℕ → List Header → Option ℕ
  hash_at n [] = none
  hash_at n (h ∷ hs) = if h.number == n then some (y.hash_header h) else hash_at n hs

  -- No header of a chain that stays above zero has the number of its start, or a higher one.
  pub hash_at-none :
      (n : ℕ) (prev : Header) (hs : List Header)
      → IsChain y prev hs
      → length hs ≤ prev.number
      → prev.number < 2 ^ 64
      → prev.number ≤ n
      → hash_at n hs ≡ none
  hash_at-none n prev [] c l u le = refl
  hash_at-none n prev (h ∷ hs) c l u le = ground (arith, hash_at-none n h hs c.2)

  lookup-hashes_of :
      (n : ℕ) (prev : Header) (hs : List Header) (hashes : Table ℕ)
      → IsChain y prev hs
      → length hs ≤ prev.number
      → prev.number < 2 ^ 64
      → lookup n (hashes_of y hs hashes)
        ≡ elim (hash_at n hs) [ none ↦ lookup n hashes | some h ↦ some h ]
  lookup-hashes_of n prev [] hashes c l u = refl
  lookup-hashes_of n prev (h ∷ hs) hashes c l u = ground (
    arith,
    lookup-hashes_of n h hs (insert h.number (y.hash_header h) hashes) c.2,
    hash_at-none n h hs c.2,
    lookup-insert h.number n (y.hash_header h) hashes,
  )

  parent_of-keep :
      (prev : Header) (n : ℕ) (hs : List Header) (p : Option SealedHeader)
      → IsChain y prev hs
      → length hs ≤ prev.number
      → prev.number < 2 ^ 64
      → prev.number ≤ n
      → parent_of y n hs p ≡ p
  parent_of-keep prev n [] p c l u le = refl
  parent_of-keep prev n (h ∷ hs) p c l u le = ground (arith, parent_of-keep h n hs p c.2)

  -- The parent that is returned is the first ancestor, sealed.
  parent_lem :
      (current : Header) (hs : List Header)
      → IsChain y current hs
      → length hs ≤ current.number
      → current.number < 2 ^ 64
      → hs ≢ []
      → (h : Header) × (rest : List Header) × (hs ≡ h ∷ rest)
        × (parent_of y (pred_u64 current.number) hs none ≡ some (seal y h))
  parent_lem current [] c l u full = absurd (full refl)
  parent_lem current (h ∷ rest) c l u full = (
    h,
    rest,
    refl,
    rw ((==_iff h.number (pred_u64 current.number)).1 c.0) (
        parent_of-keep h (pred_u64 current.number) rest (some (seal y h)) c.2 (omega (arith, c.0))
          (omega (arith, c.0)) (omega (arith, c.0))),
  )

  or_missing :
      (n : ℕ) (found : Option ℕ) → elim found [ none ↦ lookup n [] | some h ↦ some h ] ≡ found
  unfolding lookup
  or_missing n none = refl
  or_missing n (some h) = refl

  -- Of ancestors that are accepted, and not more than the current block's number, which fits 64
  -- bits, the map has exactly the numbers and hashes, and the parent is the first of them.
  pub seal_and_validate_lem :
      (a : AncestorHeaders) (b : CurrentBlock y) (hashes : Table ℕ) (parent : SealedHeader)
      → length a.headers ≤ b.body.header.number
      → b.body.header.number < 2 ^ 64
      → seal_and_validate y a b ≡ ok (hashes, parent)
      → ((n : ℕ) → lookup n hashes ≡ hash_at n a.headers)
        × ((rest : List Header) × (a.headers ≡ parent.header ∷ rest))
        × (parent.hash ≡ y.hash_header parent.header)
  seal_and_validate_lem a b hashes parent l u h =
      let current = b.body.header in
      let c = seal_and_validate-IsChain y a b (hashes, parent) h in
      let made = seal_and_validate_of_IsChain y a b c in
      let full = (seal_and_validate_iff y a b).0 ((hashes, parent), h) in
      let (first, rest, e, found) = parent_lem current a.headers c l u full.1 in
      let same_hashes : hashes_of y a.headers [] ≡ hashes = ground (arith, h, made, found) in
      let same_parent : seal y first ≡ parent = ground (arith, h, made, found) in
      (
        λ n.
            rw (← same_hashes)
              (lookup-hashes_of n current a.headers [] c l u ∙ or_missing n (hash_at n a.headers)),
        rw (← same_parent) (rest, e),
        rw (← same_parent),
      )
