-- ===== src/Bytes.antt =====
-- What `encoding/binary` and `io.ReadFull` are used for: little-endian words and exact reads from
-- a reader that holds the bytes still to come.
pub mod Laws
use harmony_db.Base.{
  ℕ, zero, suc, ◌+◌, ◌*◌, ◌/◌, ◌%◌, ◌<◌, List, [], ◌∷◌, leb, if◌then◌else◌, length, take, drop,
}

pub data ReadError : Type 0 where
  -- `io.EOF`: not one byte was left; `io.ErrUnexpectedEOF`: some were, and too few.
  eof unexpected_eof : ReadError

pub data Read {ℓ} (A : Type ℓ) : Type ℓ where
  ok : A → List ℕ → Read A
  fail : ReadError → Read A

infixl 5 ◌>>=◌
abbrev pub ◌>>=◌ {ℓ κ} : {A : Type ℓ} {B : Type κ} → Read A → (A → List ℕ → Read B) → Read B
ok a rest >>= f = f a rest
fail e >>= f = fail e

-- The word `n` in `k` bytes, the lowest first; what does not fit is cut off.
unfoldable pub le : ℕ → ℕ → List ℕ
le zero n = []
le (suc k) n = n % 256 ∷ le k (n / 256)

unfoldable pub from_le : List ℕ → ℕ
from_le [] = 0
from_le (b ∷ bs) = b + 256 * from_le bs

too_short : List ℕ → ReadError
too_short [] = eof
too_short (b ∷ bs) = unexpected_eof

-- `io.ReadFull` with a buffer of `k` bytes.
unfoldable pub read_full : ℕ → List ℕ → Read (List ℕ)
unfolding too_short
read_full k bs = if leb k (length bs) then ok (take k bs) (drop k bs) else fail (too_short bs)

-- `binary.Read` of a word of `k` bytes.
unfoldable pub read_word : ℕ → List ℕ → Read ℕ
unfolding read_full from_le
read_word k bs = read_full k bs >>= λ w rest. ok (from_le w) rest
