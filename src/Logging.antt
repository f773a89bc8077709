-- ===== src/Logging.antt =====
-- logger.go: the debug mode from the environment, and the filter `DebugFilterCore` of debug entries
-- over a core of zap. The cores are those of the package zapcore: an interface here, which says
-- nothing of what they do. Of an entry the filter reads whether its level is debug, of a field what
-- the record below has. `strings.ToLower` and `strings.TrimSpace` are for ASCII.
pub mod Components
use harmony_db.Base.{
  ℕ, ◌+◌, Bool, true, false, ◌&&◌, ◌||◌, not, Option, none, some, List, [], ◌∷◌, leb, ◌==◌,
  if◌then◌else◌,
}
use harmony_db.Tree.Page.{bytes_equal}

abbrev pub Text : Type 0
Text = List ℕ

-- `Components` is the list of its keys, which are set to true and never removed, so that a key may
-- stand twice; of its length the code asks only whether it is 0.
pub record DebugConfig : Type 0 where
  pub enabled : Bool
  pub components : List Text
  pub performance_monitoring : Bool

abbrev pub true_text : Text
true_text = 116 ∷ 114 ∷ 117 ∷ 101 ∷ []

lower : ℕ → ℕ
lower b = if leb 65 b && leb b 90 then b + 32 else b

unfoldable pub to_lower : Text → Text
unfolding lower
to_lower [] = []
to_lower (b ∷ bs) = lower b ∷ to_lower bs

unfoldable pub is_space : ℕ → Bool
is_space b = b == 32 || (leb 9 b && leb b 13)

unfoldable pub trim_left : Text → Text
unfolding is_space
trim_left [] = []
trim_left (b ∷ bs) = let rest = trim_left bs in if is_space b then rest else b ∷ bs

unfoldable pub push_unless_space : ℕ → Text → Text
unfolding is_space
push_unless_space b [] = if is_space b then [] else b ∷ []
push_unless_space b (c ∷ cs) = b ∷ c ∷ cs

unfoldable pub trim_right : Text → Text
unfolding push_unless_space
trim_right [] = []
trim_right (b ∷ bs) = push_unless_space b (trim_right bs)

unfoldable pub trim_space : Text → Text
unfolding trim_left trim_right
trim_space t = trim_right (trim_left t)

unfoldable pub push_first : ℕ → List Text → List Text
push_first b [] = (b ∷ []) ∷ []
push_first b (t ∷ ts) = (b ∷ t) ∷ ts

-- `strings.Split` at one byte.
unfoldable pub split : ℕ → Text → List Text
unfolding push_first
split separator [] = [] ∷ []
split separator (b ∷ bs) =
    let rest = split separator bs in if b == separator then [] ∷ rest else push_first b rest

-- The loop over the parts of HARMONYDB_DEBUG_COMPONENTS.
unfoldable pub add_components : List Text → List Text → List Text
unfolding trim_space
add_components [] known = known
add_components (t ∷ ts) known = add_components ts (trim_space t ∷ known)

-- A variable that is not set is empty, and then its switch is off.
unfoldable pub is_on : Text → Bool
unfolding to_lower
is_on [] = false
is_on (b ∷ bs) = bytes_equal (to_lower (b ∷ bs)) true_text

unfoldable pub listed : Text → List Text
unfolding split add_components
listed [] = []
listed (b ∷ bs) = add_components (split 44 (b ∷ bs)) []

-- `detectDebugMode`, from the values of HARMONYDB_DEBUG, HARMONYDB_DEBUG_COMPONENTS and
-- HARMONYDB_DEBUG_PERF.
unfoldable pub detect_debug_mode : Text → Text → Text → DebugConfig
unfolding is_on listed
detect_debug_mode debug components perf = record {
  enabled = is_on debug;
  components = listed components;
  performance_monitoring = is_on perf;
}

unfoldable pub contains : Text → List Text → Bool
contains name [] = false
contains name (t ∷ ts) = let rest = contains name ts in if bytes_equal t name then true else rest

unfoldable pub is_empty : List Text → Bool
is_empty [] = true
is_empty (t ∷ ts) = false

-- The argument is the package's `debugConfig`, `none` for nil.
unfoldable pub is_debug_enabled_for_component : Option DebugConfig → Text → Bool
unfolding contains is_empty
is_debug_enabled_for_component none component = false
is_debug_enabled_for_component (some config) component =
    if config.enabled && is_empty config.components
    then true
    else contains component config.components

pub record Field : Type 0 where
  pub key : Text
  pub is_string : Bool
  pub string : Text

-- `zapcore.Core` with cores `K`, entries `E`, checked entries `C`, errors `X` and the state `S` of
-- what they write to.
pub record Core (K E C X S : Type 0) : Type 0 where
  pub check : K → E → C → C
  pub write : K → E → List Field → S → Option X × S
  pub sync : K → S → Option X × S
  pub with_fields : K → List Field → K

pub record DebugFilterCore (K : Type 0) : Type 0 where
  pub core : K
  pub debug_config : Option DebugConfig

abbrev pub component_text : Text
component_text = 99 ∷ 111 ∷ 109 ∷ 112 ∷ 111 ∷ 110 ∷ 101 ∷ 110 ∷ 116 ∷ []

unfoldable pub extract_component_from_fields : List Field → Text
extract_component_from_fields [] = []
extract_component_from_fields (f ∷ fs) =
    let rest = extract_component_from_fields fs in
    if bytes_equal f.key component_text && f.is_string then f.string else rest

unfoldable pub is_debug_entry_enabled : Option DebugConfig → Bool
unfolding is_empty
is_debug_entry_enabled none = false
is_debug_entry_enabled (some config) =
    if config.enabled && is_empty config.components then true else config.enabled

-- Whether `Write` skips a debug entry: `component != ""` and the component is not enabled.
unfoldable pub is_skipped : Option DebugConfig → Text → Bool
unfolding is_debug_enabled_for_component
is_skipped debug_config [] = false
is_skipped debug_config (b ∷ bs) = not (is_debug_enabled_for_component debug_config (b ∷ bs))

module _ {K E C X S : Type 0} (zap : Core K E C X S) (is_debug : E → Bool) where
  unfoldable pub check : DebugFilterCore K → E → C → C
  unfolding is_debug_entry_enabled
  check c entry checked =
      if is_debug entry && not (is_debug_entry_enabled c.debug_config)
      then checked
      else zap.check c.core entry checked

  -- It asks for the package's `debugConfig`, not for that of the filter.
  unfoldable pub write : Option DebugConfig → DebugFilterCore K → E → List Field → S → Option X × S
  unfolding is_skipped extract_component_from_fields
  write debug_config c entry fields s =
      if is_debug entry && is_skipped debug_config (extract_component_from_fields fields)
      then (none, s)
      else zap.write c.core entry fields s

  unfoldable pub with_fields : DebugFilterCore K → List Field → DebugFilterCore K
  with_fields c fields = record c { core = zap.with_fields c.core fields }

  unfoldable pub sync_filter : DebugFilterCore K → S → Option X × S
  sync_filter c s = zap.sync c.core s

-- `NewDebugFilterCore`.
unfoldable pub new_debug_filter_core : {K : Type 0} → K → Option DebugConfig → DebugFilterCore K
new_debug_filter_core core config = record { core = core; debug_config = config }
