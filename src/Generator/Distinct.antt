-- ===== src/Generator/Distinct.antt =====
-- Which ids the generators of the members give out (generator.go).
use Prim.Native.Nat.{bit_or}
use harmony_db.Base.{ℕ, zero, suc, ◌+◌, ◌*◌, ◌%◌, ◌^◌, ◌<◌, ◌≡◌, ◌≢◌, refl, ◌∙◌, ap, arith}
use harmony_db.Generator.{Generator, lowbit, new_generator, next}
use harmony_db.Generator.Digits.{and_mask, or_fields}

lowbit-suffix : (x : ℕ) → lowbit x 48 ≡ x % 2 ^ 48
unfolding lowbit
lowbit-suffix x = and_mask 48 x

-- The generator after `n` calls.
after : ℕ → Generator → Generator
unfolding next
after zero g = g
after (suc n) g = (next (after n g)).1

-- The id of the call behind `n` others.
pub nth_id : ℕ → Generator → ℕ
nth_id n g = (next (after n g)).0

prefix-after : (n : ℕ) (g : Generator) → (after n g).prefix ≡ g.prefix
unfolding after next
prefix-after zero g = refl
prefix-after (suc n) g = prefix-after n g

suffix-after : (n : ℕ) (g : Generator) → (after n g).suffix % 2 ^ 48 ≡ (g.suffix + n) % 2 ^ 48
unfolding after next
suffix-after zero g = ap (λ s. s % 2 ^ 48) (omega arith)
suffix-after (suc n) g = omega (arith, suffix-after n g)

nth_id-fields :
    (n m : ℕ) (g : Generator)
    → g.prefix ≡ m * 2 ^ 48
    → nth_id n g ≡ m * 2 ^ 48 + (g.suffix + n + 1) % 2 ^ 48
unfolding nth_id next
nth_id-fields n m g h =
    let suffix = ((after n g).suffix + 1) % 2 ^ 64 in
    let low : lowbit suffix 48 ≡ (g.suffix + n + 1) % 2 ^ 48 =
      lowbit-suffix suffix ∙ omega (arith, suffix-after n g) in
    ap (λ p. bit_or p (lowbit suffix 48)) (prefix-after n g ∙ h)
    ∙ ap (bit_or (m * 2 ^ 48)) low
    ∙ or_fields 48 m ((g.suffix + n + 1) % 2 ^ 48) (omega arith)

prefix-new : (m now : ℕ) → m < 2 ^ 16 → (new_generator m now).prefix ≡ m * 2 ^ 48
unfolding new_generator
prefix-new m now h = omega (arith, h)

-- Two calls of a member's generator return different ids, if fewer than 2^48 calls lie between them.
pub ids_distinct :
    (m now i j : ℕ)
    → m < 2 ^ 16
    → i < j
    → j < i + 2 ^ 48
    → nth_id i (new_generator m now) ≢ nth_id j (new_generator m now)
ids_distinct m now i j h k l e =
    let g = new_generator m now in
    let a = nth_id-fields i m g (prefix-new m now h) in
    let b = nth_id-fields j m g (prefix-new m now h) in omega (arith, a, b, e, k, l)

-- The generators of two members never return the same id, whenever they were made and however many
-- calls were made to them.
pub members_distinct :
    (m m' now now' i j : ℕ)
    → m < 2 ^ 16
    → m' < 2 ^ 16
    → m ≢ m'
    → nth_id i (new_generator m now) ≢ nth_id j (new_generator m' now')
members_distinct m m' now now' i j h h' d e =
    let a = nth_id-fields i m (new_generator m now) (prefix-new m now h) in
    let b = nth_id-fields j m' (new_generator m' now') (prefix-new m' now' h') in
    d (omega (arith, a, b, e))
