-- ===== src/Generator.antt =====
-- generator.go: the ids of requests.
pub mod Digits
pub mod Distinct
use Prim.Native.Nat.{bit_and, bit_or}
use harmony_db.Base.{ℕ, zero, suc, ◌+◌, ◌-◌, ◌*◌, ◌/◌, ◌%◌, ◌^◌}

abbrev pub ts_len : ℕ
ts_len = 40

abbrev pub cnt_len : ℕ
cnt_len = 8

abbrev pub suffix_len : ℕ
suffix_len = 48

pub record Generator : Type 0 where
  pub prefix : ℕ
  pub suffix : ℕ

-- `x & (math.MaxUint64 >> (64 - n))`
unfoldable pub lowbit : ℕ → ℕ → ℕ
lowbit x n = bit_and x ((2 ^ 64 - 1) / 2 ^ (64 - n))

-- `now` is the time in nanoseconds since 1970.
unfoldable pub new_generator : ℕ → ℕ → Generator
unfolding lowbit
new_generator member_id now =
    let unix_milli = now / 1000000 in
    record {
      prefix = member_id * 2 ^ suffix_len % 2 ^ 64;
      suffix = lowbit unix_milli ts_len * 2 ^ cnt_len % 2 ^ 64;
    }

-- The id, and the generator after the call; the addition is atomic.
unfoldable pub next : Generator → ℕ × Generator
unfolding lowbit
next g =
    let suffix = (g.suffix + 1) % 2 ^ 64 in
    (bit_or g.prefix (lowbit suffix suffix_len), record g { suffix = suffix })
