-- ===== src/Generator/Digits.antt =====
-- Binary digits: a low mask is a remainder, and fields that do not overlap add up.
use Prim.Native.Nat.{max, bit_and, bit_or, digits, bit_and-bitwise, bit_or-bitwise}
use native.Mathlib.Nat.{pow-suc, one-le-pow}
use harmony_db.Base.{
  ℕ, zero, suc, ◌+◌, ◌-◌, ◌*◌, ◌/◌, ◌%◌, ◌^◌, ◌≤◌, ◌<◌, min, ◌≡◌, refl, sym, ◌∙◌, ap, arith,
}

module _ (z : ℕ → ℕ) (f : ℕ → ℕ → ℕ) where
  -- Any count of digits that is not less than the first number serves.
  enough_digits : (m n a b : ℕ) → a ≤ m → a ≤ n → digits z f m a b ≡ digits z f n a b
  enough_digits zero zero zero b h k = refl
  enough_digits zero (suc n) zero b h k = refl
  enough_digits (suc m) zero zero b h k = refl
  enough_digits (suc m) (suc n) zero b h k = refl
  enough_digits zero n (suc a) b h k = absurd (omega (arith, h))
  enough_digits (suc m) zero (suc a) b h k = absurd (omega (arith, k))
  enough_digits (suc m) (suc n) (suc a) b h k =
      ap (λ d. d * 2 + f (suc a % 2) (b % 2))
        (enough_digits m n (suc a / 2) (b / 2) (omega (arith, h)) (omega (arith, k)))

and_halves : (a b : ℕ) → bit_and a b ≡ bit_and (a / 2) (b / 2) * 2 + min (a % 2) (b % 2)
and_halves zero b = omega (arith, bit_and-bitwise 0 b, bit_and-bitwise 0 (b / 2))
and_halves (suc a) b =
    let half =
      enough_digits (λ b. 0) min a (suc a / 2) (suc a / 2) (b / 2) (omega arith) (omega arith) in
    omega (arith, bit_and-bitwise (suc a) b, bit_and-bitwise (suc a / 2) (b / 2), half)

or_halves : (a b : ℕ) → bit_or a b ≡ bit_or (a / 2) (b / 2) * 2 + max (a % 2) (b % 2)
or_halves zero b = omega (arith, bit_or-bitwise 0 b, bit_or-bitwise 0 (b / 2))
or_halves (suc a) b =
    let half =
      enough_digits (λ b. b) max a (suc a / 2) (suc a / 2) (b / 2) (omega arith) (omega arith) in
    omega (arith, bit_or-bitwise (suc a) b, bit_or-bitwise (suc a / 2) (b / 2), half)

and_nothing : (n a : ℕ) → digits (λ b. 0) min n a 0 ≡ 0
and_nothing zero a = refl
and_nothing (suc n) zero = refl
and_nothing (suc n) (suc a) = omega (arith, and_nothing n (suc a / 2))

or_nothing : (n a : ℕ) → a ≤ n → digits (λ b. b) max n a 0 ≡ a
or_nothing zero zero h = refl
or_nothing zero (suc a) h = absurd (omega (arith, h))
or_nothing (suc n) zero h = refl
or_nothing (suc n) (suc a) h = omega (arith, or_nothing n (suc a / 2) (omega (arith, h)))

shifted : (k q : ℕ) → q * 2 ^ suc k ≡ 2 * (q * 2 ^ k)
shifted k q = let double = ap (λ (p : ℕ). q * p) (pow-suc 2 k) in omega (arith, double)

and_low : (k q r : ℕ) → r < 2 ^ k → bit_and (q * 2 ^ k + r) (2 ^ k - 1) ≡ r
and_low zero q r h =
    let r_zero : r ≡ 0 = omega (arith, h) in
    omega (arith, bit_and-bitwise (q * 1 + r) 0, and_nothing (q * 1 + r) (q * 1 + r), r_zero)
and_low (suc k) q r h =
    let p : 2 ^ suc k ≡ 2 ^ k * 2 = pow-suc 2 k in
    let low : bit_and (q * 2 ^ k + r / 2) (2 ^ k - 1) ≡ r / 2 =
      and_low k q (r / 2) (omega (arith, h, p)) in
    let quotient : (q * 2 ^ suc k + r) / 2 ≡ q * 2 ^ k + r / 2 = omega (arith, shifted k q) in
    let digit : (q * 2 ^ suc k + r) % 2 ≡ r % 2 = omega (arith, shifted k q) in
    let mask : (2 ^ suc k - 1) / 2 ≡ 2 ^ k - 1 = omega (arith, p, one-le-pow k 2) in
    let one : (2 ^ suc k - 1) % 2 ≡ 1 = omega (arith, p, one-le-pow k 2) in
    and_halves (q * 2 ^ suc k + r) (2 ^ suc k - 1)
    ∙ rw (quotient, digit, mask, one, low) (omega arith)

-- The `k` lowest digits.
pub and_mask : (k a : ℕ) → bit_and a (2 ^ k - 1) ≡ a % 2 ^ k
and_mask k a =
    let parts : a / 2 ^ k * 2 ^ k + a % 2 ^ k ≡ a = ground (arith, one-le-pow k 2) in
    let low = and_low k (a / 2 ^ k) (a % 2 ^ k) (ground (arith, one-le-pow k 2)) in
    ap (λ x. bit_and x (2 ^ k - 1)) (sym parts) ∙ low

-- A number over `k` zeros, and one of `k` digits.
pub or_fields : (k q r : ℕ) → r < 2 ^ k → bit_or (q * 2 ^ k) r ≡ q * 2 ^ k + r
or_fields zero q r h =
    let r_zero : r ≡ 0 = omega (arith, h) in
    rw r_zero (omega (arith, bit_or-bitwise (q * 1) 0, or_nothing (q * 1) (q * 1) (omega arith)))
or_fields (suc k) q r h =
    let upper : bit_or (q * 2 ^ k) (r / 2) ≡ q * 2 ^ k + r / 2 =
      or_fields k q (r / 2) (omega (arith, h, pow-suc 2 k)) in
    let quotient : q * 2 ^ suc k / 2 ≡ q * 2 ^ k = omega (arith, shifted k q) in
    let digit : q * 2 ^ suc k % 2 ≡ 0 = omega (arith, shifted k q) in
    or_halves (q * 2 ^ suc k) r ∙ rw (quotient, digit, upper) (omega (arith, shifted k q))
