-- ===== src/Frame/Bytes.antt =====
-- The little-endian length of the frame, and what follows it.
use reth_proofs.Prelude.{ℕ, ◌%◌, ◌+◌, ◌*◌, ◌^◌, ◌<◌, ◌≡◌, refl, List, [], ◌∷◌, ◌++◌, length, arith}
use reth_proofs.Outcome.{ok}
use reth_proofs.Frame.{to_le_bytes, frame, skip_header}

-- What little-endian bytes are worth.
abbrev pub of_le_bytes : List ℕ → ℕ
of_le_bytes [] = 0
of_le_bytes (b ∷ bs) = b + 256 * of_le_bytes bs

-- Reading the bytes gives back the number, reduced to their width.
pub of_le_bytes-to_le_bytes : (v : ℕ) → v < 2 ^ 32 → of_le_bytes (to_le_bytes 4 v) ≡ v
unfolding to_le_bytes
of_le_bytes-to_le_bytes v h = omega arith

-- A frame is a header of four bytes, which say how long the rest is if that is below 2 ^ 32, and the
-- bytes that were framed; the guest's slice finds these, however many they are.
pub skip_header-frame :
    (input_bytes : List ℕ)
    → (header : List ℕ) × (frame input_bytes ≡ header ++ input_bytes)
      × (length header ≡ 4)
      × (of_le_bytes header ≡ length input_bytes % 2 ^ 32)
      × (skip_header (frame input_bytes) ≡ ok input_bytes)
unfolding frame to_le_bytes skip_header
skip_header-frame input_bytes = (
  to_le_bytes 4 (length input_bytes % 2 ^ 32),
  refl,
  refl,
  of_le_bytes-to_le_bytes (length input_bytes % 2 ^ 32) (omega arith),
  refl,
)
