-- ===== src/Outcome.antt =====
-- How a Rust call ends: it returns, it returns an `Err`, or it panics. A panic of the guest ends the
-- proof, so nothing of the state is kept.
use reth_proofs.Prelude.{ℕ, ◌≡◌, refl, Bool, true, false, Option, none, some}

-- The `Err` values of the functions that return a `Result`.
pub data Error : Type 0 where
  rlp_error : Error
  account_not_decoded : Error
  account_not_found : Error
  mismatched_storage_root : ℕ → ℕ → ℕ → Error
  failed_validation : Error
  failed_execution : Error
  bincode_error : Error
  rpc_error : Error
  invalid_url : Error
  block_recovery_failed : Error
  trie_db_failed : Error
  request_failed : Error
  session_failed : Error
  block_too_old : ℕ → ℕ → Error
  connection_failed : Error
  launch_failed : Error
  job_rejected : Error
  empty_response : Error
  io_error : Error
  blob_verify_kzg_proof_failed : Error
  json_error : Error

-- The panics: of `panic!`, `expect` and `todo!` in this repository, and of the crates it calls.
pub data Panic : Type 0 where
  in_library : Panic
  unwrapped : Error → Panic
  unwrapped_none : Panic
  index_out_of_bounds : Panic
  header_not_decoded : Panic
  invalid_header_block_number : ℕ → ℕ → Panic
  invalid_header_parent_hash : ℕ → ℕ → Panic
  parent_not_sealed : Panic
  invalid_signature_format : ℕ → Panic
  invalid_signature : ℕ → Panic
  signer_not_recovered : Panic
  invalid_bytecode_hash : ℕ → ℕ → Panic
  block_hash_not_provided : Panic
  missing_stats : Panic
  transactions_not_full : Panic
  missing_receipt_url : Panic
  failed_after_execution : Panic
  state_root_mismatch : Panic
  account_bytes_not_decoded : Panic
  storage_value_not_decoded : Panic
  storage_witness_todo : Panic
  account_witness_todo : Panic
  unable_to_write : Panic
  slice_with_incorrect_length : Panic
  no_block_hash : Panic
  not_the_parent : ℕ → ℕ → Panic
  not_supported_for_new_trie : Panic
  new_state_root_mismatch : ℕ → ℕ → Panic

pub data Outcome {ℓ} (A : Type ℓ) : Type ℓ where
  ok : A → Outcome A
  err : Error → Outcome A
  panic : Panic → Outcome A

infixl 5 ◌>>=◌ ◌>>◌
abbrev pub ◌>>=◌ {ℓ κ} : {A : Type ℓ} {B : Type κ} → Outcome A → (A → Outcome B) → Outcome B
ok a >>= f = f a
err e >>= f = err e
panic p >>= f = panic p

abbrev pub ◌>>◌ {ℓ} : {B : Type ℓ} → Outcome (Unit {0}) → Outcome B → Outcome B
m >> k = m >>= λ _. k

-- `Result::unwrap`
abbrev pub unwrap {ℓ} : {A : Type ℓ} → Outcome A → Outcome A
unwrap (ok a) = ok a
unwrap (err e) = panic (unwrapped e)
unwrap (panic p) = panic p

-- `Result::map_err`
abbrev pub map_err {ℓ} : {A : Type ℓ} → Error → Outcome A → Outcome A
map_err e (ok a) = ok a
map_err e (err _) = err e
map_err e (panic p) = panic p

-- `Option::ok_or`
abbrev pub ok_or {ℓ} : {A : Type ℓ} → Option A → Error → Outcome A
ok_or (some a) e = ok a
ok_or none e = err e

-- `Option::expect`, `Option::unwrap`
abbrev pub expect {ℓ} : {A : Type ℓ} → Option A → Panic → Outcome A
expect (some a) p = ok a
expect none p = panic p

-- `if !test { panic!(..) }`
abbrev pub check : Bool → Panic → Outcome (Unit {0})
check true p = ok tt
check false p = panic p

-- Inversion of a successful bind, where the parts stay shut.
pub >>=-eq-ok {ℓ κ} :
    {A : Type ℓ} {B : Type κ} (m : Outcome A) (next : A → Outcome B) {r : B}
    → (m >>= next) ≡ ok r
    → (v : A) × (m ≡ ok v) × (next v ≡ ok r)
>>=-eq-ok (panic p) next h = cc
>>=-eq-ok (err e) next h = cc
>>=-eq-ok (ok v) next h = (v, refl, h)

pub unwrap-eq-ok {ℓ} : {A : Type ℓ} (m : Outcome A) {a : A} → unwrap m ≡ ok a → m ≡ ok a
unwrap-eq-ok (ok a) h = h
unwrap-eq-ok (err e) h = cc
unwrap-eq-ok (panic p) h = cc

pub check-eq-ok : (b : Bool) (p : Panic) {u : Unit {0}} → check b p ≡ ok u → b ≡ true
check-eq-ok true p h = refl
check-eq-ok false p h = cc

-- The call returns or panics: it has no `Err`.
abbrev pub NeverErrs {ℓ} : {A : Type ℓ} → Outcome A → Type 0
NeverErrs (err e) = ⊥
NeverErrs _ = Unit

pub unwrap-NeverErrs {ℓ} : {A : Type ℓ} (m : Outcome A) → NeverErrs (unwrap m)
unwrap-NeverErrs (ok a) = tt
unwrap-NeverErrs (err e) = tt
unwrap-NeverErrs (panic p) = tt

pub expect-NeverErrs {ℓ} : {A : Type ℓ} (o : Option A) (p : Panic) → NeverErrs (expect o p)
expect-NeverErrs (some a) p = tt
expect-NeverErrs none p = tt

pub >>=-NeverErrs {ℓ κ} :
    {A : Type ℓ} {B : Type κ} (m : Outcome A) (f : A → Outcome B)
    → NeverErrs m
    → ((a : A) → NeverErrs (f a))
    → NeverErrs (m >>= f)
>>=-NeverErrs (ok a) f here there = there a
>>=-NeverErrs (err e) f here there = absurd here
>>=-NeverErrs (panic p) f here there = tt

pub expect-eq-ok {ℓ} :
    {A : Type ℓ} (o : Option A) (p : Panic) {a : A} → expect o p ≡ ok a → o ≡ some a
expect-eq-ok (some a) p h = cc
expect-eq-ok none p h = cc
