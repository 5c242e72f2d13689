-- ===== src/Core/Headers/Chain.antt =====
-- Which headers `seal_and_validate` accepts, and what it returns on them.
use reth_proofs.Prelude.{
  ℕ, ◌≡◌, ◌≢◌, ◌↔◌, refl, Option, none, some, List, [], ◌∷◌, ◌==◌, if◌then◌else◌, arith, ==_iff,
  false, Bool-cases, inl, inr,
}
use reth_proofs.Outcome.{ok, expect, parent_not_sealed, ◌>>=◌, >>=-eq-ok}
use reth_proofs.Table.{Table, insert}
use reth_proofs.Core.{Header, SealedHeader, Alloy, CurrentBlock}
use reth_proofs.Core.Headers.{
  AncestorHeaders, pred_u64, seal, link, seal_headers, seal_and_validate,
}

module _ (y : Alloy) where
  -- Each header is the parent of the one before it.
  abbrev pub IsChain : Header → List Header → Type 0
  IsChain prev [] = Unit
  IsChain prev (h ∷ hs) =
      (h.number ≡ pred_u64 prev.number) × (y.hash_header h ≡ prev.parent_hash) × IsChain h hs

  -- The map and the parent that the loop collects.
  abbrev pub hashes_of : List Header → Table ℕ → Table ℕ
  hashes_of [] hashes = hashes
  hashes_of (h ∷ hs) hashes = hashes_of hs (insert h.number (y.hash_header h) hashes)

  abbrev pub parent_of : ℕ → List Header → Option SealedHeader → Option SealedHeader
  parent_of n [] parent = parent
  parent_of n (h ∷ hs) parent = parent_of n hs (if h.number == n then some (seal y h) else parent)

  seal_headers-IsChain :
      (n : ℕ) (hs : List Header) (prev : Header) (hashes : Table ℕ) (parent : Option SealedHeader)
      → (r : Table ℕ × Option SealedHeader)
      → seal_headers y n hs hashes (some (seal y prev)) parent ≡ ok r
      → IsChain prev hs
  unfolding seal_headers link
  seal_headers-IsChain n [] prev hashes parent r h = tt
  seal_headers-IsChain n (header ∷ hs) prev hashes parent r h =
      let (hashes', e, q) = >>=-eq-ok (link y (some (seal y prev)) (seal y header) hashes) _ h in
      (
        ground (arith, e),
        ground (arith, e),
        seal_headers-IsChain n hs header hashes'
            (if header.number == n then some (seal y header) else parent) r q,
      )

  seal_headers_of_IsChain :
      (n : ℕ) (hs : List Header) (prev : Header) (hashes : Table ℕ) (parent : Option SealedHeader)
      → IsChain prev hs
      → seal_headers y n hs hashes (some (seal y prev)) parent
        ≡ ok (hashes_of hs hashes, parent_of n hs parent)
  unfolding seal_headers link
  seal_headers_of_IsChain n [] prev hashes parent c = refl
  seal_headers_of_IsChain n (header ∷ hs) prev hashes parent (number, hash, rest) =
      rw
        (
          (==_iff header.number (pred_u64 prev.number)).1 number,
          (==_iff (y.hash_header header) prev.parent_hash).1 hash,
        )
        (seal_headers_of_IsChain n hs header (insert header.number (y.hash_header header) hashes)
          (if header.number == n then some (seal y header) else parent) rest)

  -- No block is its own parent, so the current header is never taken for the parent.
  pred_u64-ne : (n : ℕ) → (n == pred_u64 n) ≡ false
  pred_u64-ne n = ground arith

  parent_of-some :
      (n : ℕ) (hs : List Header) (p : SealedHeader)
      → (q : SealedHeader) × (parent_of n hs (some p) ≡ some q)
  parent_of-some n [] p = (p, refl)
  parent_of-some n (h ∷ hs) p = elim (Bool-cases (h.number == n)) [
    | inl hit ↦ rw hit (parent_of-some n hs (seal y h))
    | inr miss ↦ rw miss (parent_of-some n hs p)
  ]

  -- What the loop makes of the current header and a chain of ancestors.
  pub seal_headers_from_current :
      (current : Header) (hs : List Header)
      → IsChain current hs
      → seal_headers y (pred_u64 current.number) (current ∷ hs) [] none none
        ≡ ok (hashes_of hs [], parent_of (pred_u64 current.number) hs none)
  unfolding seal_headers link
  seal_headers_from_current current hs c =
      rw (pred_u64-ne current.number) (seal_headers_of_IsChain _ hs current [] none c)

  pub seal_and_validate-IsChain :
      (a : AncestorHeaders) (b : CurrentBlock y) (r : Table ℕ × SealedHeader)
      → seal_and_validate y a b ≡ ok r
      → IsChain b.body.header a.headers
  unfolding seal_and_validate
  seal_and_validate-IsChain a b r h =
      let current = b.body.header in
      let n = pred_u64 current.number in
      let (u, e, q) = >>=-eq-ok (seal_headers y n (current ∷ a.headers) [] none none) _ h in
      seal_headers-IsChain n a.headers current [] none u
        (unfold seal_headers link in rw (pred_u64-ne current.number) at e)

  pub seal_and_validate_of_IsChain :
      (a : AncestorHeaders) (b : CurrentBlock y)
      → IsChain b.body.header a.headers
      → seal_and_validate y a b ≡ (do
        parent ← expect (parent_of (pred_u64 b.body.header.number) a.headers none) parent_not_sealed
        ok (hashes_of a.headers [], parent))
  unfolding seal_and_validate
  seal_and_validate_of_IsChain a b c = rw (seal_headers_from_current b.body.header a.headers c)

  pub parent_found :
      (current : Header) (hs : List Header)
      → IsChain current hs
      → hs ≢ []
      → (p : SealedHeader) × (parent_of (pred_u64 current.number) hs none ≡ some p)
  parent_found current [] c full = absurd (full refl)
  parent_found current (h ∷ hs) c full =
      rw ((==_iff h.number (pred_u64 current.number)).1 c.0)
        (parent_of-some (pred_u64 current.number) hs (seal y h))

  -- A list of ancestors is accepted exactly if it is not empty, each header's number is one below
  -- that of the header before it, the current block's first, and its hash that header's parent hash.
  pub seal_and_validate_iff :
      (a : AncestorHeaders) (b : CurrentBlock y)
      → ((r : Table ℕ × SealedHeader) × (seal_and_validate y a b ≡ ok r))
        ↔ (IsChain b.body.header a.headers × (a.headers ≢ []))
  seal_and_validate_iff a b = (
    λ (r, h).
        let c = seal_and_validate-IsChain a b r h in
        let made = seal_and_validate_of_IsChain a b c in
        (
          c,
          λ empty.
              let orphan : parent_of (pred_u64 b.body.header.number) a.headers none ≡ none =
                rw empty in
              ground (arith, h, made, orphan),
        ),
    λ (c, full).
        let (p, found) = parent_found b.body.header a.headers c full in
        ((hashes_of a.headers [], p), rw (seal_and_validate_of_IsChain a b c, found)),
  )
