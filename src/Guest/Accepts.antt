-- ===== src/Guest/Accepts.antt =====
-- What the guest's success means: each check of `guest_handler`, as a property of its input.
pub mod Whole
pub mod State
use reth_proofs.Prelude.{
  ℕ, ◌≡◌, refl, some, none, List, [], ◌∷◌, ==_iff, ==_refl, arith, ap, ◌∙◌, subst, All, sym,
}
use reth_proofs.Outcome.{
  ok, expect, unwrap, parent_not_sealed, >>=-eq-ok, check-eq-ok, unwrap-eq-ok,
}
use reth_proofs.Table.{Table}
use reth_proofs.External.{External}
use reth_proofs.State.{Risc0ZkvmTrie}
use reth_proofs.State.Validate.{validate_state_trie, validate_storage_tries}
use reth_proofs.State.Validate.Synced.{IsSyncedAt, validate_storage_tries_iff}
use reth_proofs.Core.{Header, SealedHeader, Alloy}
use reth_proofs.Core.Headers.{pred_u64, seal_and_validate}
use reth_proofs.Core.Headers.Chain.{
  IsChain, hashes_of, parent_of, seal_and_validate-IsChain, seal_and_validate_of_IsChain,
}
use reth_proofs.Core.Bytecodes.{validate}
use reth_proofs.Core.Bytecodes.Keys.{IsHashed, validate_iff}
use reth_proofs.Core.TrieDb.{TrieDb, first}
use reth_proofs.Core.Input.{ZkvmInput}
use reth_proofs.Guest.{Zkvm, validated_db}

module _ (x : External) (y : Alloy) where
  -- The state trie has the state root of the first ancestor.
  abbrev pub IsRooted : List Header → ℕ → Type 0
  IsRooted [] root = ⊥
  IsRooted (parent ∷ headers) root = root ≡ parent.state_root

  -- What steps 3 to 6 ask of the input; `last` is the sealed parent.
  abbrev pub IsValidated : ZkvmInput x y → SealedHeader → Type 0
  IsValidated input last =
      IsChain y input.current_block.body.header input.ancestor_headers.headers
      × (parent_of y (pred_u64 input.current_block.body.header.number)
            input.ancestor_headers.headers none
          ≡ some last)
      × IsRooted input.ancestor_headers.headers (x.hash_slow input.ethereum_state.state_trie.inner)
      × All (λ (a, t). IsSyncedAt x input.ethereum_state.state_trie a t)
          input.ethereum_state.storage_tries
      × All (IsHashed y) input.bytecodes.codes

  -- The database of a validated input.
  abbrev pub db_of : ZkvmInput x y → TrieDb x y
  db_of input = record {
    state = input.ethereum_state;
    block_hashes = hashes_of y input.ancestor_headers.headers [];
    bytecode_by_hash = input.bytecodes.codes;
  }

  first-IsRooted :
      (st : Risc0ZkvmTrie x) (headers : List Header) (parent : Header)
      → first headers ≡ ok parent
      → validate_state_trie x st.state_trie parent.state_root ≡ ok tt
      → IsRooted headers (x.hash_slow st.state_trie.inner)
  unfolding validate_state_trie
  first-IsRooted st [] parent h v = cc
  first-IsRooted st (p ∷ headers) parent h v =
      let same : p ≡ parent = ground (arith, h) in
      (==_iff (x.hash_slow st.state_trie.inner) p.state_root).0 (
        check-eq-ok _ _
          (subst (λ q. validate_state_trie x st.state_trie q.state_root ≡ ok tt) (sym same) v))

  first_of_IsRooted :
      (st : Risc0ZkvmTrie x) (headers : List Header)
      → IsRooted headers (x.hash_slow st.state_trie.inner)
      → (parent : Header) × (first headers ≡ ok parent)
        × (validate_state_trie x st.state_trie parent.state_root ≡ ok tt)
  unfolding validate_state_trie
  first_of_IsRooted st [] rooted = absurd rooted
  first_of_IsRooted st (p ∷ headers) rooted = (p, refl, rw (rooted, ==_refl p.state_root))

  module _ (z : Zkvm x y) where
    pub validated_db_of_IsValidated :
        (input : ZkvmInput x y) (last : SealedHeader)
        → IsValidated input last
        → validated_db x y z input ≡ ok (db_of input, last)
    unfolding validated_db
    validated_db_of_IsValidated input last (chain, found, rooted, synced, hashed) =
        let st = input.ethereum_state in
        let sealed =
          seal_and_validate_of_IsChain y input.ancestor_headers input.current_block chain in
        let (parent, one, root) = first_of_IsRooted st input.ancestor_headers.headers rooted in
        rw (
          sealed,
          found,
          one,
          root,
          (validate_storage_tries_iff x st.state_trie st.storage_tries).1 synced,
          (validate_iff y input.bytecodes).1 hashed,
        )

    pub validated_db-IsValidated :
        (input : ZkvmInput x y) (db : TrieDb x y) (last : SealedHeader)
        → validated_db x y z input ≡ ok (db, last)
        → IsValidated input last × (db ≡ db_of input)
    unfolding validated_db
    validated_db-IsValidated input db last h =
        let st = input.ethereum_state in
        let a = input.ancestor_headers in
        let (r, e, q) = >>=-eq-ok (seal_and_validate y a input.current_block) _ h in
        let chain = seal_and_validate-IsChain y a input.current_block r e in
        let made = seal_and_validate_of_IsChain y a input.current_block chain in
        let (parent, one, p) = >>=-eq-ok (first a.headers) _ q in
        let (_, root, t) = >>=-eq-ok (validate_state_trie x st.state_trie parent.state_root) _ p in
        let (_, tries, u) =
          >>=-eq-ok (unwrap (validate_storage_tries x st.state_trie st.storage_tries)) _ t in
        let (_, codes, v) = >>=-eq-ok (validate y input.bytecodes) _ u in
        let (last', found, w) =
          >>=-eq-ok
            (expect (parent_of y (pred_u64 input.current_block.body.header.number) a.headers none)
              parent_not_sealed)
            _ (sym made ∙ e) in
        let same_last : last' ≡ last = ground (arith, w, v) in
        let with_hashes : Table ℕ → TrieDb x y = λ hs. record (db_of input) { block_hashes = hs } in
        let same_db : with_hashes r.0 ≡ db = ground (arith, v) in
        let same_hashes : hashes_of y a.headers [] ≡ r.0 = ground (arith, w) in
        (
          (
            chain,
            ground (arith, found, same_last),
            first-IsRooted st a.headers parent one root,
            (validate_storage_tries_iff x st.state_trie st.storage_tries).0 (unwrap-eq-ok _ tries),
            (validate_iff y input.bytecodes).0 codes,
          ),
          sym same_db ∙ ap with_hashes (sym same_hashes),
        )
