-- ===== src/Base/Lists.antt =====
-- Lists measured and indexed by native numbers, under the library's names.
use Prim.Native.Nat.{ℕ, zero, suc, ◌+◌, ◌-◌, ◌≤◌}
use mathlib.Core.Path.{◌≡◌, refl, ap}
use mathlib.Core.List.{List, [], ◌∷◌, ◌++◌}
use mathlib.Core.Option.{Option, none, some}
use native.Mathlib.Omega.{arith}

module _ {ℓ} {A : Type ℓ} where
  abbrev pub length : List A → ℕ
  length [] = 0
  length (x ∷ xs) = suc (length xs)

  abbrev pub get_elem? : List A → ℕ → Option A
  get_elem? [] i = none
  get_elem? (x ∷ xs) zero = some x
  get_elem? (x ∷ xs) (suc i) = get_elem? xs i

  abbrev pub get_last? : List A → Option A
  get_last? [] = none
  get_last? (x ∷ []) = some x
  get_last? (x ∷ y ∷ ys) = get_last? (y ∷ ys)

  abbrev pub take : ℕ → List A → List A
  take zero xs = []
  take (suc n) [] = []
  take (suc n) (x ∷ xs) = x ∷ take n xs

  abbrev pub drop : ℕ → List A → List A
  drop zero xs = xs
  drop (suc n) [] = []
  drop (suc n) (x ∷ xs) = drop n xs

  pub length-append : (xs ys : List A) → length (xs ++ ys) ≡ length xs + length ys
  length-append [] ys = omega arith
  length-append (x ∷ xs) ys = omega (arith, length-append xs ys)

  pub length-drop : (n : ℕ) (xs : List A) → length (drop n xs) ≡ length xs - n
  length-drop zero xs = omega arith
  length-drop (suc n) [] = omega arith
  length-drop (suc n) (x ∷ xs) = omega (arith, length-drop n xs)

module _ {ℓ} {A : Type ℓ} where
  pub drop_of_length-le : (n : ℕ) (xs : List A) → length xs ≤ n → drop n xs ≡ []
  drop_of_length-le zero [] h = refl
  drop_of_length-le zero (x ∷ xs) h = absurd (omega arith)
  drop_of_length-le (suc n) [] h = refl
  drop_of_length-le (suc n) (x ∷ xs) h = drop_of_length-le n xs (omega arith)

  -- Taking as many as there are, or more, takes all.
  pub take_of_length-le : (count : ℕ) (all : List A) → length all ≤ count → take count all ≡ all
  take_of_length-le (suc count) (first ∷ rest) enough =
      ap (◌∷◌ first) (take_of_length-le count rest (omega arith))
  take_of_length-le (suc count) [] enough = refl
  take_of_length-le zero (first ∷ rest) enough = absurd (omega arith)
  take_of_length-le zero [] enough = refl

  pub take-nil : (n : ℕ) → ◌≡◌ {A = List A} (take n []) []
  take-nil zero = refl
  take-nil (suc n) = refl

  -- Two consecutive slices make one.
  pub take-append-slice :
      (a c : ℕ) (xs : List A) → a ≤ c → take a xs ++ take (c - a) (drop a xs) ≡ take c xs
  take-append-slice zero c xs h = let e : c - 0 ≡ c = omega arith in rw e
  take-append-slice (suc a) zero xs h = absurd (omega arith)
  take-append-slice (suc a) (suc c) [] h = take-nil (suc c - suc a)
  take-append-slice (suc a) (suc c) (x ∷ xs) h =
      let e : suc c - suc a ≡ c - a = omega arith in
      rw e (ap (◌∷◌ x) (take-append-slice a c xs (omega arith)))

  pub take-take : (a c : ℕ) (xs : List A) → a ≤ c → take a (take c xs) ≡ take a xs
  take-take zero c xs h = refl
  take-take (suc a) zero xs h = absurd (omega arith)
  take-take (suc a) (suc c) [] h = refl
  take-take (suc a) (suc c) (x ∷ xs) h = ap (◌∷◌ x) (take-take a c xs (omega arith))

  -- What is appended behind the first `n` does not show in them.
  pub take-append : (n : ℕ) (xs ys : List A) → n ≤ length xs → take n (xs ++ ys) ≡ take n xs
  take-append zero xs ys h = refl
  take-append (suc n) [] ys h = absurd (omega arith)
  take-append (suc n) (x ∷ xs) ys h = ap (◌∷◌ x) (take-append n xs ys (omega arith))

-- A predicate by recursion computes to tuples, which the tactics read and build.
abbrev pub All {ℓ κ} : {A : Type ℓ} → (A → Type κ) → List A → Type κ
All P [] = Unit
All P (x ∷ xs) = P x × All P xs

module _ {ℓ κ} {A : Type ℓ} (P : A → Type κ) where
  pub All-append : (xs ys : List A) → All P xs → All P ys → All P (xs ++ ys)
  All-append [] ys h k = k
  All-append (x ∷ xs) ys h k = (h.0, All-append xs ys h.1 k)
