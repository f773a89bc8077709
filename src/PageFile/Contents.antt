-- ===== src/PageFile/Contents.antt =====
-- What a write to the page file leaves to be read (`WriteAt` and `ReadAt` of storage.go).
use mathlib.Core.List.{append_assoc, append-nil}
use harmony_db.Base.{
  ℕ, zero, suc, ◌+◌, ◌-◌, ◌≤◌, ◌≡◌, refl, ap, ◌∙◌, ◌⊎◌, inl, inr, some, List, [], ◌∷◌, ◌++◌, arith,
  length, length-append, length-drop, take, drop, le→leb, drop_of_length-le,
}
use harmony_db.Tree.Codec.{zeros}
use harmony_db.Tree.Codec.Pages.{length-zeros}
use harmony_db.PageFile.{write_at, read_at}

drop-append : (n : ℕ) (xs ys : List ℕ) → n ≤ length xs → drop n (xs ++ ys) ≡ drop n xs ++ ys
drop-append zero xs ys h = refl
drop-append (suc n) [] ys h = absurd (omega (arith, h))
drop-append (suc n) (x ∷ xs) ys h = drop-append n xs ys (omega (arith, h))

take_past :
    (n : ℕ) (xs ys : List ℕ) → length xs ≤ n → take n (xs ++ ys) ≡ xs ++ take (n - length xs) ys
take_past n [] ys h = let e : n - 0 ≡ n = omega arith in rw e refl
take_past zero (x ∷ xs) ys h = absurd (omega (arith, h))
take_past (suc n) (x ∷ xs) ys h =
    let e : suc n - suc (length xs) ≡ n - length xs = omega arith in
    rw e (ap (◌∷◌ x) (take_past n xs ys (omega (arith, h))))

length-take : (n : ℕ) (xs : List ℕ) → n ≤ length xs → length (take n xs) ≡ n
length-take zero xs h = refl
length-take (suc n) [] h = absurd (omega (arith, h))
length-take (suc n) (x ∷ xs) h = ap suc (length-take n xs (omega (arith, h)))

-- The `n` bytes at `at` are `bs`.
pub record Holds (file : List ℕ) (at n : ℕ) (bs : List ℕ) : Type 0 where
  pub before : List ℕ
  pub behind : List ℕ
  pub whole : file ≡ before ++ (bs ++ behind)
  pub at_place : length before ≡ at
  pub size : length bs ≡ n

pub read_at-Holds :
    (file : List ℕ) (at n : ℕ) (bs : List ℕ) → Holds file at n bs → read_at at n file ≡ some bs
unfolding read_at
read_at-Holds file at n bs h =
    let all : length file ≡ at + (n + length h.behind) =
      ap length h.whole
      ∙ omega (
        arith,
        length-append h.before (bs ++ h.behind),
        length-append bs h.behind,
        h.at_place,
        h.size,
      ) in
    let skipped : drop at file ≡ bs ++ h.behind =
      ap (drop at) h.whole
      ∙ drop-append at h.before (bs ++ h.behind) (omega (arith, h.at_place))
      ∙ ap (λ ds. ds ++ (bs ++ h.behind))
          (drop_of_length-le at h.before (omega (arith, h.at_place))) in
    let none_left : n - length bs ≡ 0 = omega (arith, h.size) in
    let taken : take n (bs ++ h.behind) ≡ bs =
      take_past n bs h.behind (omega (arith, h.size)) ∙ rw none_left (append-nil bs) in
    rw (le→leb (at + n) (length file) (omega (arith, all)), skipped, taken) refl

length-cut : (at : ℕ) (file : List ℕ) → length (take at (file ++ zeros (at - length file))) ≡ at
length-cut at file =
    length-take at _ (
      omega (arith, length-append file (zeros (at - length file)), length-zeros (at - length file)))

-- What is written is held.
pub write_at-Holds : (at : ℕ) (bs file : List ℕ) → Holds (write_at at bs file) at (length bs) bs
unfolding write_at
write_at-Holds at bs file = record {
  before = take at (file ++ zeros (at - length file));
  behind = drop (at + length bs) file;
  whole = refl;
  at_place = length-take at _ (
      omega
        (arith, length-append file (zeros (at - length file)), length-zeros (at - length file)));
  size = refl;
}

elsewhere_before :
    (at : ℕ) (bs file : List ℕ) (a n : ℕ) (xs : List ℕ) (h : Holds file a n xs)
    → a + n ≤ at
    → write_at at bs file
      ≡ h.before
        ++ (xs
            ++ (take (at - (a + n)) (h.behind ++ zeros (at - length file))
                ++ (bs ++ drop (at + length bs) file)))
unfolding write_at
elsewhere_before at bs file a n xs h le =
    let z = zeros (at - length file) in
    let parts : file ++ z ≡ h.before ++ (xs ++ (h.behind ++ z)) =
      ap (λ f. f ++ z) h.whole ∙ simp append_assoc in
    let places : at - length h.before - length xs ≡ at - (a + n) =
      omega (arith, h.at_place, h.size) in
    let taken : take at (file ++ z) ≡ h.before ++ (xs ++ take (at - (a + n)) (h.behind ++ z)) =
      ap (take at) parts
      ∙ take_past at h.before _ (omega (arith, h.at_place, le))
      ∙ ap (λ ys. h.before ++ ys)
          (take_past (at - length h.before) xs _ (omega (arith, h.at_place, h.size, le))
            ∙ rw places refl) in
    ap (λ ys. ys ++ (bs ++ drop (at + length bs) file)) taken ∙ simp append_assoc

elsewhere_behind :
    (at : ℕ) (bs file : List ℕ) (a n : ℕ) (xs : List ℕ) (h : Holds file a n xs)
    → at + length bs ≤ a
    → write_at at bs file
      ≡ (take at (file ++ zeros (at - length file)) ++ (bs ++ drop (at + length bs) h.before))
        ++ (xs ++ h.behind)
unfolding write_at
elsewhere_behind at bs file a n xs h le =
    let dropped : drop (at + length bs) file ≡ drop (at + length bs) h.before ++ (xs ++ h.behind) =
      ap (drop (at + length bs)) h.whole
      ∙ drop-append (at + length bs) h.before (xs ++ h.behind) (omega (arith, h.at_place, le)) in
    ap (λ ys. take at (file ++ zeros (at - length file)) ++ (bs ++ ys)) dropped ∙ simp append_assoc

-- A write elsewhere leaves what is held.
pub write_at-elsewhere :
    (at : ℕ) (bs file : List ℕ) (a n : ℕ) (xs : List ℕ)
    → Holds file a n xs
    → (a + n ≤ at) ⊎ (at + length bs ≤ a)
    → Holds (write_at at bs file) a n xs
unfolding write_at
write_at-elsewhere at bs file a n xs h (inl le) = record {
  before = h.before;
  behind =
      take (at - (a + n)) (h.behind ++ zeros (at - length file))
      ++ (bs ++ drop (at + length bs) file);
  whole = elsewhere_before at bs file a n xs h le;
  at_place = h.at_place;
  size = h.size;
}
write_at-elsewhere at bs file a n xs h (inr le) = record {
  before = take at (file ++ zeros (at - length file)) ++ (bs ++ drop (at + length bs) h.before);
  behind = h.behind;
  whole = elsewhere_behind at bs file a n xs h le;
  at_place = omega (
    arith,
    length-append (take at (file ++ zeros (at - length file)))
        (bs ++ drop (at + length bs) h.before),
    length-append bs (drop (at + length bs) h.before),
    length-drop (at + length bs) h.before,
    length-cut at file,
    h.at_place,
    le,
  );
  size = h.size;
}
