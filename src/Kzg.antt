-- ===== src/Kzg.antt =====
-- zkvm/zisk-guest/src/kzg.rs: the check of KZG proofs that the ZisK guest installs for the
-- precompile. `verify` is kzg_rs's, with its settings; `none` is an error of it. An array is a list
-- of bytes.
use reth_proofs.Prelude.{
  ℕ, ◌≡◌, ◌≢◌, ◌↔◌, refl, Bool, true, false, Option, none, some, length, ◌==◌, if◌then◌else◌,
}
use reth_proofs.Outcome.{
  Outcome, ok, err, panic, slice_with_incorrect_length, blob_verify_kzg_proof_failed, ◌>>=◌,
}
use reth_proofs.External.{Bytes}

-- `as_array::<n>`
unfoldable pub as_array : ℕ → Bytes → Outcome Bytes
as_array n bytes = if length bytes == n then ok bytes else panic slice_with_incorrect_length

unfoldable pub as_bytes32 : Bytes → Outcome Bytes
unfolding as_array
as_bytes32 bytes = as_array 32 bytes

unfoldable pub as_bytes48 : Bytes → Outcome Bytes
unfolding as_array
as_bytes48 bytes = as_array 48 bytes

-- `unwrap_or(false)`
abbrev pub or_false : Option Bool → Bool
or_false (some valid) = valid
or_false none = false

-- The end of the check: `Ok(())`, or the precompile's error.
abbrev pub verdict : Bool → Outcome (Unit {0})
verdict valid = if valid then ok tt else err blob_verify_kzg_proof_failed

-- The verdict of the library against that of the check.
by_verdict :
    (v : Option Bool)
    → ((verdict (or_false v) ≡ ok tt) ↔ (v ≡ some true))
      × ((verdict (or_false v) ≡ err blob_verify_kzg_proof_failed) ↔ (v ≢ some true))
by_verdict (some true) = ((λ h. refl, λ h. refl), (λ h. cc, λ h. absurd (h refl)))
by_verdict (some false) = ((λ h. cc, λ h. cc), (λ h k. cc, λ h. refl))
by_verdict none = ((λ h. cc, λ h. cc), (λ h k. cc, λ h. refl))

module _ (verify : (commitment z y proof : Bytes) → Option Bool) where
  unfoldable pub verify_kzg_proof : (z y commitment proof : Bytes) → Outcome (Unit {0})
  verify_kzg_proof z y commitment proof = do
    commitment' ← as_bytes48 commitment
    z' ← as_bytes32 z
    y' ← as_bytes32 y
    proof' ← as_bytes48 proof
    verdict (or_false (verify commitment' z' y' proof'))

  -- On points of 32 bytes, and a commitment and a proof of 48, the check never panics: it passes
  -- exactly if the library verifies the proof, and is the precompile's error if it refuses it or
  -- fails.
  pub verify_kzg_proof_iff :
      (z y commitment proof : Bytes)
      → length z ≡ 32
      → length y ≡ 32
      → length commitment ≡ 48
      → length proof ≡ 48
      → ((verify_kzg_proof z y commitment proof ≡ ok tt)
          ↔ (verify commitment z y proof ≡ some true))
        × ((verify_kzg_proof z y commitment proof ≡ err blob_verify_kzg_proof_failed)
            ↔ (verify commitment z y proof ≢ some true))
  unfolding verify_kzg_proof as_bytes32 as_bytes48
  verify_kzg_proof_iff z y commitment proof a b c d =
      rw (a, b, c, d) (by_verdict (verify commitment z y proof))
