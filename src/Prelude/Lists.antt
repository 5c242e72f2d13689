-- ===== src/Prelude/Lists.antt =====
-- Lists measured by native numbers, under the library's names, and predicates on lists.
use Prim.Native.Nat.{ℕ, zero, suc, ◌+◌}
use mathlib.Core.Path.{◌≡◌, refl, subst}
use mathlib.Core.List.{List, [], ◌∷◌, ◌++◌}
use mathlib.Core.Option.{Option, none, some}
use native.Mathlib.Omega.{arith}

module _ {ℓ} {A : Type ℓ} where
  abbrev pub length : List A → ℕ
  length [] = 0
  length (x ∷ xs) = suc (length xs)

  abbrev pub get_elem? : List A → ℕ → Option A
  get_elem? [] i = none
  get_elem? (x ∷ xs) zero = some x
  get_elem? (x ∷ xs) (suc i) = get_elem? xs i

  abbrev pub drop : ℕ → List A → List A
  drop zero xs = xs
  drop (suc n) [] = []
  drop (suc n) (x ∷ xs) = drop n xs

  -- Reading on from an index.
  pub drop-cons :
      (i : ℕ) (xs : List A) (y : A) (ys : List A)
      → drop i xs ≡ y ∷ ys
      → (get_elem? xs i ≡ some y) × (drop (suc i) xs ≡ ys)
  drop-cons zero [] y ys h = cc
  drop-cons zero (x ∷ xs) y ys h = (cc, cc)
  drop-cons (suc i) [] y ys h = cc
  drop-cons (suc i) (x ∷ xs) y ys h = drop-cons i xs y ys h

  pub drop-nil : (i : ℕ) (xs : List A) → drop i xs ≡ [] → get_elem? xs i ≡ none
  drop-nil zero [] h = refl
  drop-nil zero (x ∷ xs) h = cc
  drop-nil (suc i) [] h = refl
  drop-nil (suc i) (x ∷ xs) h = drop-nil i xs h

  pub length-append : (xs ys : List A) → length (xs ++ ys) ≡ length xs + length ys
  length-append [] ys = omega arith
  length-append (x ∷ xs) ys = omega (arith, length-append xs ys)

-- Every item of the list satisfies the predicate; it computes to a tuple.
abbrev pub All {ℓ κ} : {A : Type ℓ} → (A → Type κ) → List A → Type κ
All P [] = Unit
All P (x ∷ xs) = P x × All P xs

module _ {ℓ κ} {A : Type ℓ} (P : A → Type κ) where
  pub All-append : (xs ys : List A) → All P xs → All P ys → All P (xs ++ ys)
  All-append [] ys left right = right
  All-append (x ∷ xs) ys (here, left) right = (here, All-append xs ys left right)

  pub All-left : (xs ys : List A) → All P (xs ++ ys) → All P xs
  All-left [] ys both = tt
  All-left (x ∷ xs) ys (here, both) = (here, All-left xs ys both)

  pub All-right : (xs ys : List A) → All P (xs ++ ys) → All P ys
  All-right [] ys both = both
  All-right (x ∷ xs) ys (here, both) = All-right xs ys both

  pub All-get_elem? : (xs : List A) (i : ℕ) {x : A} → All P xs → get_elem? xs i ≡ some x → P x
  All-get_elem? [] i all h = cc
  All-get_elem? (y ∷ xs) zero (here, all) h =
      let same : y ≡ _ = ground (arith, h) in subst P same here
  All-get_elem? (y ∷ xs) (suc i) (here, all) h = All-get_elem? xs i all h
