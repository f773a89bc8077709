-- ===== src/RaftLog/Sequential.antt =====
-- Logs whose entry at index i has the id i, as a leader writes them (repl/log.go), and what the
-- loops of `committedEntries` and `volatileEntries` collect.
use harmony_db.Base.{
  ℕ, zero, suc, ◌+◌, ◌-◌, ◌<◌, ◌≡◌, refl, subst, ◌⊎◌, inl, inr, none, some, List, [], ◌∷◌, ◌++◌,
  arith, length, get_elem?, get_last?, take, drop, length-drop, take_of_length-le,
  drop_of_length-le, take-nil, ltb, ◌==◌, ◌||◌, Bool-cases,
}
use harmony_db.Proto.{Log}
use harmony_db.RaftLog.{
  RaftLog, last_id, last_index, term, collect, committed_entries, volatile_entries,
}

-- The ids count up from `i`.
abbrev pub CountsFrom : ℕ → List Log → Type 0
CountsFrom i [] = Unit
CountsFrom i (e ∷ es) = (e.id ≡ i) × CountsFrom (suc i) es

abbrev pub IsSequential : RaftLog → Type 0
IsSequential l = CountsFrom 1 l.entries

pub CountsFrom-append :
    (i : ℕ) (es fs : List Log)
    → CountsFrom i es
    → CountsFrom (length es + i) fs
    → CountsFrom i (es ++ fs)
CountsFrom-append i [] fs h k = let e : 0 + i ≡ i = omega arith in subst (λ j. CountsFrom j fs) e k
CountsFrom-append i (x ∷ es) fs h k =
    let e : suc (length es) + i ≡ length es + suc i = omega arith in
    (h.0, CountsFrom-append (suc i) es fs h.1 (subst (λ j. CountsFrom j fs) e k))

last_id-CountsFrom :
    (i : ℕ) (e : Log) (es : List Log)
    → CountsFrom i (e ∷ es)
    → last_id (get_last? (e ∷ es)) ≡ i + length es
unfolding last_id
last_id-CountsFrom i e [] h = omega arith
last_id-CountsFrom i e (f ∷ es) h = omega (arith, last_id-CountsFrom (suc i) f es h.1)

-- In a sequential log the last index is the number of entries.
pub last_index-eq-length : (l : RaftLog) → IsSequential l → last_index l ≡ length l.entries
unfolding last_index
last_index-eq-length l = go l.entries
  where
    go : (es : List Log) → CountsFrom 1 es → last_id (get_last? es) ≡ length es
    go [] h = refl
    go (e ∷ es) h = omega (arith, last_id-CountsFrom 1 e es h)

-- One step of `drop` shows the entry at that place.
drop_step :
    (es : List Log) (i : ℕ)
    → ((get_elem? es i ≡ none) × (drop i es ≡ []))
      ⊎ ((e : Log) × (get_elem? es i ≡ some e) × (drop i es ≡ e ∷ drop (suc i) es))
drop_step [] zero = inl (refl, refl)
drop_step [] (suc i) = inl (refl, refl)
drop_step (x ∷ es) zero = inr (x, refl, refl)
drop_step (x ∷ es) (suc i) = drop_step es i

drop-suc : (es : List Log) (i : ℕ) → drop i es ≡ [] → drop (suc i) es ≡ []
drop-suc [] zero h = refl
drop-suc [] (suc i) h = refl
drop-suc (x ∷ es) zero h = cc
drop-suc (x ∷ es) (suc i) h = drop-suc es i h

-- The loop collects the entries of the range, and stops at the end of the log.
pub collect-slice : (es : List Log) (n i : ℕ) → collect es n (suc i) ≡ take n (drop i es)
unfolding collect
collect-slice es zero i = refl
collect-slice es (suc n) i = elim (drop_step es i) [
  | inl (a, b) ↦
      ground (arith, a, b, collect-slice es n (suc i), drop-suc es i b, take-nil {A = Log} n)
  | inr (e, a, b) ↦ ground (arith, a, b, collect-slice es n (suc i))
]

-- What is handed out for application is exactly the slice from behind the last applied entry to
-- the commit index.
pub committed_entries-slice :
    (l : RaftLog)
    → committed_entries l ≡ take (l.commit_index - l.last_applied) (drop l.last_applied l.entries)
unfolding committed_entries
committed_entries-slice l =
    ground (arith, collect-slice l.entries (l.commit_index - l.last_applied) l.last_applied)

-- What is to be persisted is exactly the slice behind the stable index, on a sequential log.
pub volatile_entries-slice :
    (l : RaftLog) → IsSequential l → volatile_entries l ≡ drop l.stable_index l.entries
unfolding volatile_entries
volatile_entries-slice l h = ground (
  arith,
  last_index-eq-length l h,
  collect-slice l.entries (last_index l - l.stable_index) l.stable_index,
  take_of_length-le (last_index l - l.stable_index) (drop l.stable_index l.entries),
  length-drop l.stable_index l.entries,
  drop_of_length-le l.stable_index l.entries,
)

get_elem?-total : (es : List Log) (i : ℕ) → i < length es → (e : Log) × (get_elem? es i ≡ some e)
get_elem?-total [] i h = absurd (omega arith)
get_elem?-total (x ∷ es) zero h = (x, refl)
get_elem?-total (x ∷ es) (suc i) h = get_elem?-total es i (omega arith)

-- Reading a term never panics on a sequential log.
pub term_total : (l : RaftLog) (i : ℕ) → IsSequential l → (t : ℕ) × (term l i ≡ some t)
unfolding term
term_total l i h = elim (Bool-cases (i == 0 || ltb (last_index l) i)) [
  | inl e ↦ rw e (0, refl)
  | inr e ↦
      let (x, p) = get_elem?-total l.entries (i - 1) (ground (arith, last_index-eq-length l h)) in
      rw (e, p) (x.term, refl)
]
