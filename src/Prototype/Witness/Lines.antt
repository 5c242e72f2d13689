-- ===== src/Prototype/Witness/Lines.antt =====
-- `format_execution_witness` of prototype/src/utils.rs as the lines that it writes, with what
-- stands in each, and a reading of the keys from them. The hash of a header is that of its
-- encoding.
use reth_proofs.Prelude.{
  ℕ, zero, suc, ◌≡◌, refl, ap, sym, ◌∙◌, none, some, Option, List, [], ◌∷◌, ◌++◌, length, drop,
  ◌==◌, Bool-cases, inl, inr,
}
use mathlib.Core.List.{append-nil}
use reth_proofs.External.{Bytes, External}
use reth_proofs.State.{ExecutionWitness}
use reth_proofs.Core.{Header, Alloy}
use reth_proofs.Prototype.Witness.{
  Rlp, NodeKind, KeyKind, address_preimage, slot_hash, storage_access, unknown_key, take, key_kind,
  node_kind,
}

pub data Line : Type 0 where
  state_title : (count : ℕ) → Line
  node_line : (i hash : ℕ) → NodeKind → Line
  keys_title : (count : ℕ) → Line
  key_line : (i : ℕ) → KeyKind → Line
  codes_title : (count : ℕ) → Line
  code_line : (i hash len : ℕ) → Line
  headers_title : (count : ℕ) → Line
  header_line : (i number hash parent : ℕ) → Line
  failed_header : (i : ℕ) → Line

-- `for (i, item) in items.iter().enumerate()`, from an index on
abbrev pub enumerated : (ℕ → Bytes → Line) → ℕ → List Bytes → List Line
enumerated line i [] = []
enumerated line i (item ∷ items) = line i item ∷ enumerated line (suc i) items

-- The bytes that a line of a key shows.
abbrev pub shown_key : KeyKind → Bytes
shown_key (address_preimage key) = key
shown_key (slot_hash key) = key
shown_key (storage_access addr_hash slot) = addr_hash ++ slot
shown_key (unknown_key len key) = key

abbrev pub shown_keys : List Line → List Bytes
shown_keys [] = []
shown_keys (key_line i kind ∷ lines) = shown_key kind ∷ shown_keys lines
shown_keys (_ ∷ lines) = shown_keys lines

take-drop : (n : ℕ) (bytes : Bytes) → take n bytes ++ drop n bytes ≡ bytes
take-drop zero bytes = refl
take-drop (suc n) [] = refl
take-drop (suc n) (b ∷ bytes) = ap (λ rest. b ∷ rest) (take-drop n bytes)

shown_key-key_kind : (key : Bytes) → shown_key (key_kind key) ≡ key
unfolding key_kind
shown_key-key_kind key = elim (Bool-cases (length key == 20)) [
  | inl address ↦ rw address refl
  | inr other ↦ elim (Bool-cases (length key == 32)) [
    | inl slot ↦ rw (other, slot) refl
    | inr longer ↦ elim (Bool-cases (length key == 64)) [
      | inl access ↦ rw (other, longer, access) (take-drop 32 key)
      | inr unknown ↦ rw (other, longer, unknown) refl
    ]
  ]
]

-- A part of the text without keys.
shown_keys-skip :
    (line : ℕ → Bytes → Line) (i : ℕ) (items : List Bytes) (lines : List Line)
    → ((j : ℕ) (item : Bytes) (more : List Line)
        → shown_keys (line j item ∷ more) ≡ shown_keys more)
    → shown_keys (enumerated line i items ++ lines) ≡ shown_keys lines
shown_keys-skip line i [] lines keyless = refl
shown_keys-skip line i (item ∷ items) lines keyless =
    keyless i item (enumerated line (suc i) items ++ lines)
    ∙ shown_keys-skip line (suc i) items lines keyless

shown_keys-keys :
    (i : ℕ) (keys : List Bytes) (lines : List Line)
    → shown_keys (enumerated (λ j key. key_line j (key_kind key)) i keys ++ lines)
      ≡ keys ++ shown_keys lines
shown_keys-keys i [] lines = refl
shown_keys-keys i (key ∷ keys) lines =
    ap
      (λ shown.
        shown ∷ shown_keys (enumerated (λ j k. key_line j (key_kind k)) (suc i) keys ++ lines))
      (shown_key-key_kind key)
    ∙ ap (λ rest. key ∷ rest) (shown_keys-keys (suc i) keys lines)

module _ (x : External) (y : Alloy) (r : Rlp) where
  abbrev pub line_of_header : ℕ → Option Header → Line
  line_of_header i none = failed_header i
  line_of_header i (some header) =
      header_line i header.number (y.hash_header header) header.parent_hash

  abbrev state_line : ℕ → Bytes → Line
  state_line i encoded = node_line i (x.keccak256 encoded) (node_kind x r encoded)

  abbrev key_line_of : ℕ → Bytes → Line
  key_line_of i key = key_line i (key_kind key)

  abbrev code_line_of : ℕ → Bytes → Line
  code_line_of i code = code_line i (x.keccak256 code) (length code)

  abbrev header_line_of : ℕ → Bytes → Line
  header_line_of i encoded = line_of_header i (y.decode_header encoded)

  abbrev headers_part : ExecutionWitness → List Line
  headers_part witness =
      headers_title (length witness.headers) ∷ enumerated header_line_of 0 witness.headers

  abbrev codes_part : ExecutionWitness → List Line
  codes_part witness =
      codes_title (length witness.codes)
      ∷ (enumerated code_line_of 0 witness.codes ++ headers_part witness)

  abbrev keys_part : ExecutionWitness → List Line
  keys_part witness =
      keys_title (length witness.keys)
      ∷ (enumerated key_line_of 0 witness.keys ++ codes_part witness)

  unfoldable pub format_execution_witness : ExecutionWitness → List Line
  format_execution_witness witness =
      state_title (length witness.state)
      ∷ (enumerated state_line 0 witness.state ++ keys_part witness)

  line_of_header-keyless :
      (i : ℕ) (decoded : Option Header) (lines : List Line)
      → shown_keys (line_of_header i decoded ∷ lines) ≡ shown_keys lines
  line_of_header-keyless i none lines = refl
  line_of_header-keyless i (some header) lines = refl

  -- The text shows the keys of the witness, each whole and in their order.
  pub shown_keys-format_execution_witness :
      (witness : ExecutionWitness) → shown_keys (format_execution_witness witness) ≡ witness.keys
  unfolding format_execution_witness
  shown_keys-format_execution_witness witness =
      let headers = enumerated header_line_of 0 witness.headers in
      let no_more =
        shown_keys-skip code_line_of 0 witness.codes (headers_part witness) (λ j code more. refl)
        ∙ ap shown_keys (sym (append-nil headers))
        ∙ shown_keys-skip header_line_of 0 witness.headers []
            (λ j encoded more. line_of_header-keyless j (y.decode_header encoded) more) in
      shown_keys-skip state_line 0 witness.state (keys_part witness) (λ j encoded more. refl)
      ∙ shown_keys-keys 0 witness.keys (codes_part witness)
      ∙ ap (λ rest. witness.keys ++ rest) no_more
      ∙ append-nil witness.keys
