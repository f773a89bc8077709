-- ===== src/Logging/Components.antt =====
-- The components that logger.go reads from the environment, and the debug entries that its filter
-- lets through.
use harmony_db.Base.{
  Bool, true, false, ◌&&◌, ◌||◌, not, ◌≡◌, ◌≢◌, refl, ◌∙◌, ap, none, some, List, [], ◌∷◌, ◌++◌,
  arith, if◌then◌else◌, ◌==◌, All, ◌⊎◌, inl, inr,
}
use harmony_db.Tree.Page.{bytes_equal}
use harmony_db.Tree.Order.{bytes_equal_iff}
use harmony_db.Tree.Lookup.{unequal}
use harmony_db.Logging.{
  Text, trim_space, push_first, split, add_components, listed, is_on, detect_debug_mode, contains,
  is_empty, is_debug_enabled_for_component, Field, Core, DebugFilterCore,
  extract_component_from_fields, is_skipped, write,
}

abbrev NoComma : Text → Type 0
NoComma t = All (λ b. (b == 44) ≡ false) t

-- A name that can stand in the variable.
pub record IsName (t : Text) : Type 0 where
  pub nonempty : t ≢ []
  pub no_comma : NoComma t
  pub trimmed : trim_space t ≡ t

abbrev pub join : Text → List Text → Text
join first [] = first
join first (t ∷ ts) = first ++ (44 ∷ join t ts)

split_last : (t : Text) → NoComma t → split 44 t ≡ t ∷ []
unfolding split
split_last [] h = refl
split_last (b ∷ bs) h = rw (h.0, split_last bs h.1) (unfold push_first in refl)

split_first : (t rest : Text) → NoComma t → split 44 (t ++ (44 ∷ rest)) ≡ t ∷ split 44 rest
unfolding split
split_first [] rest h = refl
split_first (b ∷ bs) rest h = rw (h.0, split_first bs rest h.1) (unfold push_first in refl)

split-join :
    (first : Text) (ts : List Text)
    → NoComma first
    → All NoComma ts
    → split 44 (join first ts) ≡ first ∷ ts
split-join first [] h k = split_last first h
split-join first (t ∷ ts) h k =
    split_first first (join t ts) h ∙ ap (◌∷◌ first) (split-join t ts k.0 k.1)

add_components-contains :
    (c : Text) (ts known : List Text)
    → All IsName ts
    → contains c (add_components ts known) ≡ (contains c ts || contains c known)
unfolding contains add_components
add_components-contains c [] known h = refl
add_components-contains c (t ∷ ts) known h =
    rw (add_components-contains c ts (trim_space t ∷ known) h.1, h.0.trimmed)
      (either (bytes_equal t c) (contains c ts) (contains c known))
  where
    either : (a b d : Bool) → (b || (if a then true else d)) ≡ ((if a then true else b) || d)
    either true true d = refl
    either true false d = refl
    either false b d = refl

add_components-is_empty :
    (ts : List Text) (t : Text) (known : List Text)
    → is_empty (add_components ts (t ∷ known)) ≡ false
unfolding add_components is_empty
add_components-is_empty [] t known = refl
add_components-is_empty (u ∷ ts) t known = add_components-is_empty ts (trim_space u) (t ∷ known)

listed-join :
    (first : Text) (ts : List Text)
    → All IsName (first ∷ ts)
    → listed (join first ts) ≡ add_components (first ∷ ts) []
unfolding listed
listed-join first ts h =
    parts (join first ts) (joined_nonempty first ts h.0.nonempty)
    ∙ ap (λ (us : List Text). add_components us [])
        (split-join first ts h.0.no_comma (commas ts h.1))
  where
    parts : (t : Text) → t ≢ [] → listed t ≡ add_components (split 44 t) []
    parts [] n = absurd (n refl)
    parts (b ∷ bs) n = refl

    joined_nonempty : (t : Text) (us : List Text) → t ≢ [] → join t us ≢ []
    joined_nonempty t [] n = n
    joined_nonempty [] (u ∷ us) n = absurd (n refl)
    joined_nonempty (b ∷ bs) (u ∷ us) n = λ e. absurd (ground (arith, e))

    commas : (us : List Text) → All IsName us → All NoComma us
    commas [] k = tt
    commas (u ∷ us) k = (k.0.no_comma, commas us k.1)

-- The components that the variable lists are the ones that are enabled.
enabled_listed :
    (debug perf first c : Text) (ts : List Text)
    → All IsName (first ∷ ts)
    → is_debug_enabled_for_component (some (detect_debug_mode debug (join first ts) perf)) c
      ≡ contains c (first ∷ ts)
unfolding is_debug_enabled_for_component detect_debug_mode contains
enabled_listed debug perf first c ts h =
    rw (listed-join first ts h, some_listed, add_components-contains c (first ∷ ts) [] h)
      (decided (is_on debug) (contains c (first ∷ ts)))
  where
    some_listed : is_empty (add_components (first ∷ ts) []) ≡ false
    some_listed = unfold add_components in add_components-is_empty ts (trim_space first) []

    decided : (a b : Bool) → (if a && false then true else (b || contains c [])) ≡ b
    decided true true = refl
    decided true false = refl
    decided false true = refl
    decided false false = refl

-- "component"
abbrev pub component_key : Text
component_key = 99 ∷ 111 ∷ 109 ∷ 112 ∷ 111 ∷ 110 ∷ 101 ∷ 110 ∷ 116 ∷ []

-- The component that the fields name: the string of the first field with the key "component" that is
-- a string, and the empty text if there is none.
pub data Names : List Field → Text → Type 0 where
  no_field : Names [] []
  first_field :
      {f : Field} {fs : List Field}
      → f.key ≡ component_key
      → f.is_string ≡ true
      → Names (f ∷ fs) f.string
  other_field :
      {f : Field} {fs : List Field} {c : Text}
      → (f.key ≢ component_key) ⊎ (f.is_string ≡ false)
      → Names fs c
      → Names (f ∷ fs) c

and_false : (a : Bool) (x y : Text) → (if a && false then x else y) ≡ y
and_false true x y = refl
and_false false x y = refl

if_or : (a b : Bool) → (if a then true else b) ≡ (a || b)
if_or true b = refl
if_or false b = refl

extract-Names :
    (fields : List Field) (c : Text) → Names fields c → extract_component_from_fields fields ≡ c
unfolding extract_component_from_fields
extract-Names [] c no_field = refl
extract-Names (f ∷ fs) c (first_field key string) =
    rw ((bytes_equal_iff f.key component_key).1 key, string) refl
extract-Names (f ∷ fs) c (other_field (inl key) rest) =
    rw (unequal f.key component_key key) (extract-Names fs c rest)
extract-Names (f ∷ fs) c (other_field (inr string) rest) =
    rw string (and_false (bytes_equal f.key component_key) f.string _ ∙ extract-Names fs c rest)

unfoldable pub stands_in : Text → List Text → Bool
stands_in name [] = false
stands_in name (t ∷ ts) = bytes_equal t name || stands_in name ts

contains-stands_in : (name : Text) (ts : List Text) → contains name ts ≡ stands_in name ts
unfolding contains stands_in
contains-stands_in name [] = refl
contains-stands_in name (t ∷ ts) =
    rw (contains-stands_in name ts) (if_or (bytes_equal t name) (stands_in name ts))

-- A debug entry with the component `c` is let through if `c` is empty, or one of the names.
abbrev pub lets_through : Text → List Text → Bool
lets_through [] names = true
lets_through (b ∷ bs) names = stands_in (b ∷ bs) names

-- With the package's configuration read from an environment in which HARMONYDB_DEBUG_COMPONENTS
-- lists names - at least one, each not empty, without a comma and without spaces around it - joined
-- by commas, `Write` of the filter drops a debug entry whose first string field with the key
-- "component" holds a text that is not empty and not in the list, and hands every other entry to the
-- core below, whatever HARMONYDB_DEBUG says.
pub write_listed :
    {K E C X S : Type 0} (zap : Core K E C X S) (is_debug : E → Bool) (debug perf first : Text)
    (ts : List Text) (filter : DebugFilterCore K) (entry : E) (fields : List Field) (c : Text)
    (s : S)
    → All IsName (first ∷ ts)
    → Names fields c
    → write zap is_debug (some (detect_debug_mode debug (join first ts) perf)) filter entry fields s
      ≡ (if is_debug entry && not (lets_through c (first ∷ ts))
          then (none, s)
          else zap.write filter.core entry fields s)
unfolding write is_skipped
write_listed zap is_debug debug perf first ts filter entry fields c s h named =
    rw (extract-Names fields c named) (rw (skipped c))
  where
    skipped :
        (c : Text)
        → is_skipped (some (detect_debug_mode debug (join first ts) perf)) c
          ≡ not (lets_through c (first ∷ ts))
    skipped [] = refl
    skipped (b ∷ bs) =
        ap not
          (enabled_listed debug perf first (b ∷ bs) ts h ∙ contains-stands_in (b ∷ bs) (first ∷ ts))
