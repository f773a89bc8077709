-- ===== src/Base/Maps.antt =====
-- Go's `map[int64]V` as an association list with distinct keys: `put` replaces, a missing key has
-- no value, and iteration goes through the pairs in the order of their first insertion.
use Prim.Native.Nat.{ℕ}
use mathlib.Core.Path.{◌≡◌, refl}
use mathlib.Core.List.{List, [], ◌∷◌}
use mathlib.Core.Option.{Option, none, some}
use native.Mathlib.Omega.{arith}
use harmony_db.Base.Tests.{◌==◌, if◌then◌else◌, Bool-cases}
use harmony_db.Base.Lists.{All}
use mathlib.Core.Logic.{inl, inr}

abbrev pub Map {ℓ} : Type ℓ → Type ℓ
Map V = List (ℕ × V)

module _ {ℓ} {V : Type ℓ} where
  unfoldable pub get : ℕ → Map V → Option V
  get k [] = none
  get k ((j, v) ∷ m) = if j == k then some v else get k m

  unfoldable pub put : ℕ → V → Map V → Map V
  put k v [] = (k, v) ∷ []
  put k v ((j, w) ∷ m) = if j == k then (k, v) ∷ m else (j, w) ∷ put k v m

  unfoldable pub remove : ℕ → Map V → Map V
  remove k [] = []
  remove k ((j, w) ∷ m) = let rest = remove k m in if j == k then rest else (j, w) ∷ rest

  pub get-put :
      (k j : ℕ) (v : V) (m : Map V) → get j (put k v m) ≡ (if k == j then some v else get j m)
  unfolding get put
  get-put k j v [] = refl
  get-put k j v ((i, w) ∷ m) = ground (arith, get-put k j v m)

  pub get-remove : (k j : ℕ) (m : Map V) → get j (remove k m) ≡ (if k == j then none else get j m)
  unfolding get remove
  get-remove k j [] = ground arith
  get-remove k j ((i, w) ∷ m) = ground (arith, get-remove k j m)

  pub get-put_self : (k : ℕ) (v : V) (m : Map V) → get k (put k v m) ≡ some v
  get-put_self k v m = ground (arith, get-put k k v m)

module _ {ℓ κ} {V : Type ℓ} (P : ℕ × V → Type κ) where
  -- What holds of all pairs and of a new one holds after the put.
  pub put-All : (k : ℕ) (v : V) (m : Map V) → P (k, v) → All P m → All P (put k v m)
  unfolding put
  put-All k v [] p h = (p, tt)
  put-All k v ((j, w) ∷ m) p h = elim (Bool-cases (j == k)) [
    | inl same ↦ rw (same, put) (p, h.1)
    | inr other ↦ rw (other, put) (h.0, put-All k v m p h.1)
  ]
