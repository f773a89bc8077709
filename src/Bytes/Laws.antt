-- ===== src/Bytes/Laws.antt =====
-- Reading back what was written.
use native.Mathlib.Nat.{pow-suc}
use harmony_db.Base.{
  ℕ, zero, suc, ◌*◌, ◌/◌, ◌^◌, ◌≤◌, ◌<◌, ◌≡◌, refl, ap, List, [], ◌∷◌, ◌++◌, arith, length, take,
  drop, le→leb, length-append, length-drop,
}
use harmony_db.Bytes.{eof, Read, ok, fail, ◌>>=◌, le, from_le, read_full, read_word}

pub length-le : (k n : ℕ) → length (le k n) ≡ k
unfolding le
length-le zero n = refl
length-le (suc k) n = ap suc (length-le k (n / 256))

pub from_le-le : (k n : ℕ) → n < 256 ^ k → from_le (le k n) ≡ n
unfolding from_le le
from_le-le zero n h = omega arith
from_le-le (suc k) n h =
    let p : 256 ^ suc k ≡ 256 ^ k * 256 = pow-suc 256 k in
    omega (arith, from_le-le k (n / 256) (omega arith))

take-length-append : (xs ys : List ℕ) → take (length xs) (xs ++ ys) ≡ xs
take-length-append [] ys = refl
take-length-append (x ∷ xs) ys = ap (◌∷◌ x) (take-length-append xs ys)

drop-length-append : (xs ys : List ℕ) → drop (length xs) (xs ++ ys) ≡ ys
drop-length-append [] ys = refl
drop-length-append (x ∷ xs) ys = drop-length-append xs ys

-- Exactly the bytes that were written are read, and the rest is left.
pub read_full-append : (k : ℕ) (xs ys : List ℕ) → length xs ≡ k → read_full k (xs ++ ys) ≡ ok xs ys
unfolding read_full
read_full-append k xs ys e = rw (
  ← e,
  le→leb (length xs) (length (xs ++ ys)) (omega (arith, length-append xs ys)),
  take-length-append,
  drop-length-append,
)

pub read_word-le : (k n : ℕ) (ys : List ℕ) → n < 256 ^ k → read_word k (le k n ++ ys) ≡ ok n ys
unfolding read_word
read_word-le k n ys h = rw (read_full-append k (le k n) ys (length-le k n), from_le-le k n h)

-- Reading nothing always succeeds; reading something from an empty reader meets its end.
pub read_word-nil : (k : ℕ) → read_word (suc k) [] ≡ fail eof
unfolding read_word
read_word-nil k = ground arith

-- A reader leaves at most `n` bytes behind what it returns.
pub record Leaves {ℓ} {A : Type ℓ} (n : ℕ) (m : Read A) : Type ℓ where
  pub at : (a : A) (rest : List ℕ) → m ≡ ok a rest → length rest ≤ n

pub Leaves-ok {ℓ} :
    {A : Type ℓ} (n : ℕ) (a : A) (rest : List ℕ) → length rest ≤ n → Leaves n (ok a rest)
Leaves-ok n a rest h = record { at = λ b rest' e. ground (arith, h) }

pub Leaves-bind {ℓ κ} :
    {A : Type ℓ} {B : Type κ} (n : ℕ) (m : Read A) (f : A → List ℕ → Read B)
    → Leaves n m
    → ((a : A) (rest : List ℕ) → length rest ≤ n → Leaves n (f a rest))
    → Leaves n (m >>= f)
Leaves-bind n (ok a rest) f h k = k a rest (h.at a rest refl)
Leaves-bind n (fail e) f h k = record { at = λ b rest p. absurd (ground arith) }

pub Leaves-read_full : (n k : ℕ) (bs : List ℕ) → length bs ≤ n → Leaves n (read_full k bs)
unfolding read_full
Leaves-read_full n k bs h = record { at = λ w rest e. ground (arith, length-drop k bs) }

pub Leaves-read_word : (n k : ℕ) (bs : List ℕ) → length bs ≤ n → Leaves n (read_word k bs)
unfolding read_word
Leaves-read_word n k bs h =
    Leaves-bind n (read_full k bs) _ (Leaves-read_full n k bs h) (λ w rest l. Leaves-ok n _ rest l)

-- A word of at least one byte leaves fewer bytes than there were.
pub read_word-shorter :
    (k : ℕ) (bs : List ℕ) (n : ℕ) (rest : List ℕ)
    → read_word (suc k) bs ≡ ok n rest
    → length rest < length bs
unfolding read_word read_full
read_word-shorter k bs n rest e = ground (arith, length-drop (suc k) bs)
