-- ===== src/State/Build/Detected.antt =====
-- The storage tries that `build_validated_tries` makes: where their roots come from, and which
-- addresses get one.
use reth_proofs.Prelude.{
  ℕ, ◌≡◌, ◌≢◌, refl, subst, Option, none, some, List, [], ◌∷◌, arith, ◌==◌, inl, inr, Bool-cases,
  ==_iff, ==_refl, All, length, ◌⊎◌,
}
use reth_proofs.Outcome.{Outcome, ok, expect, >>=-eq-ok, account_bytes_not_decoded}
use reth_proofs.Table.{Table, lookup}
use reth_proofs.External.{Bytes, empty_root, TrieAccount, External}
use reth_proofs.State.Mpt.{MptNode, get_rlp}
use reth_proofs.State.Build.{non_empty, detect_account, detect_storage_tries}

module _ (x : External) (st : MptNode x TrieAccount) where
  -- The account at the address has the root.
  abbrev pub IsDeclared : ℕ × ℕ → Type 0
  IsDeclared (a, root) =
      (acct : TrieAccount) × (get_rlp x x.account_codec st a ≡ ok (some acct))
      × (acct.storage_root ≡ root)

  -- How one key went.
  detect_account_cases :
      (a : ℕ) (found : Option Bytes) (rest : Outcome (Table ℕ)) (detected : Table ℕ)
      → detect_account x a found rest ≡ ok detected
      → ((found ≡ none) × (rest ≡ ok detected))
        ⊎ ((bytes : Bytes) × (acct : TrieAccount) × (others : Table ℕ) × (found ≡ some bytes)
            × (x.account_codec.decode bytes ≡ some acct)
            × (rest ≡ ok others)
            × (non_empty x a acct others ≡ detected))
  detect_account_cases a none rest detected h = inl (refl, h)
  detect_account_cases a (some bytes) rest detected h =
      let (acct, e, q) =
        >>=-eq-ok (expect (x.account_codec.decode bytes) account_bytes_not_decoded) _ h in
      let (others, f, r) = >>=-eq-ok rest _ q in
      inr (bytes, acct, others, refl, ground (arith, e), f, ground (arith, r))

  non_empty-IsDeclared :
      (a : ℕ) (acct : TrieAccount) (others : Table ℕ)
      → get_rlp x x.account_codec st a ≡ ok (some acct)
      → All IsDeclared others
      → All IsDeclared (non_empty x a acct others)
  non_empty-IsDeclared a acct others e all = elim (Bool-cases (acct.storage_root == empty_root)) [
    | inl empty ↦ rw empty all
    | inr full ↦ rw full ((acct, e, refl), all)
  ]

  -- The roots that are detected are those that the state trie declares.
  pub detect_storage_tries-IsDeclared :
      (keys : List Bytes) (detected : Table ℕ)
      → detect_storage_tries x st keys ≡ ok detected
      → All IsDeclared detected
  unfolding detect_storage_tries get_rlp
  detect_storage_tries-IsDeclared [] detected h =
      let e : [] ≡ detected = ground (arith, h) in subst (All IsDeclared) e tt
  detect_storage_tries-IsDeclared (key ∷ keys) detected h = elim (Bool-cases (length key == 20)) [
    | inl address ↦
        let a = x.keccak256 key in
        let (found, e, q) = >>=-eq-ok (x.trie_get st.inner a) _ (rw address at h) in
        elim (detect_account_cases a found (detect_storage_tries x st keys) detected q) [
          | inl (_, r) ↦ detect_storage_tries-IsDeclared keys detected r
          | inr (bytes, acct, others, f, dec, r, made) ↦ subst (All IsDeclared) made (
              non_empty-IsDeclared a acct others (ground (arith, e, f, dec))
                (detect_storage_tries-IsDeclared keys others r))
        ]
    | inr other ↦ detect_storage_tries-IsDeclared keys detected (rw other at h)
  ]

  abbrev pub HasKey {ℓ} : {V : Type ℓ} → ℕ → Table V → Type ℓ
  HasKey {V} a m = (v : V) × (lookup a m ≡ some v)

  -- The address of the key, if the key is one and its account has storage, is in the table.
  abbrev pub IsCovered {ℓ} : {V : Type ℓ} → Table V → Bytes → Type ℓ
  IsCovered m key =
      (acct : TrieAccount)
      → length key ≡ 20
      → get_rlp x x.account_codec st (x.keccak256 key) ≡ ok (some acct)
      → acct.storage_root ≢ empty_root
      → HasKey (x.keccak256 key) m

  pub IsCovered-mono {ℓ κ} :
      {V : Type ℓ} {W : Type κ} (m : Table V) (n : Table W)
      → ((a : ℕ) → HasKey a m → HasKey a n)
      → (keys : List Bytes) → All (IsCovered m) keys
      → All (IsCovered n) keys
  IsCovered-mono m n more [] all = tt
  IsCovered-mono m n more (key ∷ keys) all =
      (λ acct l e r. more (x.keccak256 key) (all.0 acct l e r), IsCovered-mono m n more keys all.1)

  HasKey-non_empty :
      (a : ℕ) (acct : TrieAccount) (others : Table ℕ) (b : ℕ)
      → HasKey b others
      → HasKey b (non_empty x a acct others)
  unfolding lookup
  HasKey-non_empty a acct others b (v, e) = elim (Bool-cases (acct.storage_root == empty_root)) [
    | inl empty ↦ rw empty (v, e)
    | inr full ↦ rw full (elim (Bool-cases (a == b)) [
      | inl hit ↦ (acct.storage_root, rw hit)
      | inr miss ↦ (v, rw miss e)
    ])
  ]

  HasKey-non_empty_self :
      (a : ℕ) (acct : TrieAccount) (others : Table ℕ)
      → acct.storage_root ≢ empty_root
      → HasKey a (non_empty x a acct others)
  unfolding lookup
  HasKey-non_empty_self a acct others n = elim (Bool-cases (acct.storage_root == empty_root)) [
    | inl empty ↦ absurd (n ((==_iff acct.storage_root empty_root).0 empty))
    | inr full ↦ rw full (acct.storage_root, rw (==_refl a))
  ]

  -- Every key that is an address with storage is detected.
  pub detect_storage_tries-IsCovered :
      (keys : List Bytes) (detected : Table ℕ)
      → detect_storage_tries x st keys ≡ ok detected
      → All (IsCovered detected) keys
  unfolding detect_storage_tries get_rlp lookup
  detect_storage_tries-IsCovered [] detected h = tt
  detect_storage_tries-IsCovered (key ∷ keys) detected h = elim (Bool-cases (length key == 20)) [
    | inl address ↦
        let a = x.keccak256 key in
        let (found, e, q) = >>=-eq-ok (x.trie_get st.inner a) _ (rw address at h) in
        elim (detect_account_cases a found (detect_storage_tries x st keys) detected q) [
          | inl (absent, r) ↦ (
            λ acct l f n. absurd (ground (arith, e, absent, f)),
            detect_storage_tries-IsCovered keys detected r,
          )
          | inr (bytes, acct, others, f, dec, r, made) ↦
              subst (λ m. All (IsCovered m) (key ∷ keys)) made
                (
                  λ acct' l g n.
                      let same : acct' ≡ acct = ground (arith, e, f, dec, g) in
                      HasKey-non_empty_self a acct others
                        (subst (λ (c : TrieAccount). c.storage_root ≢ empty_root) same n),
                  IsCovered-mono others (non_empty x a acct others) (HasKey-non_empty a acct others)
                      keys (detect_storage_tries-IsCovered keys others r),
                )
        ]
    | inr other ↦ (
      λ acct l f n. absurd (ground (arith, other, l)),
      detect_storage_tries-IsCovered keys detected (rw other at h),
    )
  ]
