-- ===== src/Logging/Sticky.antt =====
-- What a call of setup_logging leaves for later calls.
use aqap.Prelude.{
  String, Bool, true, false, Option, none, some, List, [], ◌∷◌, Result, ok, err, resume, ◌>>=◌,
  ◌==◌, eq_iff, ◌≡◌, refl, ◌∙◌, ap, Bool-cases, Option-cases, Result-cases, inl, inr,
}
use aqap.Value.{
  Value, str, obj, Fields, end, field, get_field, get_field_or, get_field_or_lem, or_default,
  put_field, get_field-put_field,
}
use aqap.Logging.{
  deep_merge, overridden, set_level, set_aqap, change_at, lower_levels, merged_with, configuration,
  override_at, is_shared, left, Setup, setup_logging,
}

-- The root logger has the level DEBUG.
pub record IsVerbose (cfg : Fields) : Type 0 where
  pub root : Fields
  pub has_root : get_field "root" cfg ≡ some (obj root)
  pub has_level : get_field "level" root ≡ some (str "DEBUG")

-- no entry for the root logger
abbrev LeavesRoot : Option Fields → Type 0
LeavesRoot config = override_at "root" config ≡ none

get_field-deep_merge :
    (key : String) (base config : Fields)
    → get_field key config ≡ none
    → get_field key (deep_merge base config) ≡ get_field key base
unfolding deep_merge get_field
get_field-deep_merge key base end h = refl
get_field-deep_merge key base (field k value rest) h = elim (Bool-cases (k == key)) [
  | inl same ↦ let bad : some value ≡ none = rw same at h in cc
  | inr differs ↦
      get_field-deep_merge key (put_field k (overridden (get_field k base) value) base) rest
        (rw differs at h)
      ∙ get_field-put_field k key (overridden (get_field k base) value) base
      ∙ rw differs refl
]

root-merged_with :
    (config : Option Fields) (default : Fields)
    → LeavesRoot config
    → get_field "root" (merged_with config default) ≡ get_field "root" default
root-merged_with none default h = refl
root-merged_with (some config) default h = get_field-deep_merge "root" default config h

-- The step for the loggers leaves the root alone.
root-change_loggers :
    (cfg : Fields) → get_field "root" (change_at "loggers" set_aqap cfg).1 ≡ get_field "root" cfg
unfolding change_at
root-change_loggers cfg = elim (Option-cases (get_field "loggers" cfg)) [
  | inl missing ↦ rw (missing, change_at) refl
  | inr (v, found) ↦ elim (Result-cases (set_aqap v)) [
    | inl (v', fine) ↦ rw (found, change_at, fine) (get_field-put_field "loggers" "root" v' cfg)
    | inr (e, failed) ↦ rw (found, change_at, failed) refl
  ]
]

change_root :
    (cfg root : Fields)
    → get_field "root" cfg ≡ some (obj root)
    → change_at "root" set_level cfg
      ≡ (ok tt, put_field "root" (obj (put_field "level" (str "DEBUG") root)) cfg)
unfolding change_at set_level
change_root cfg root found = rw (found, change_at) refl

IsVerbose-put_field :
    (cfg root : Fields)
    → IsVerbose (put_field "root" (obj (put_field "level" (str "DEBUG") root)) cfg)
IsVerbose-put_field cfg root = record {
  root = put_field "level" (str "DEBUG") root;
  has_root = get_field-put_field "root" "root" (obj (put_field "level" (str "DEBUG") root)) cfg;
  has_level = get_field-put_field "level" "level" (str "DEBUG") root;
}

same_root-IsVerbose :
    (cfg cfg' : Fields)
    → get_field "root" cfg' ≡ get_field "root" cfg
    → IsVerbose cfg
    → IsVerbose cfg'
same_root-IsVerbose cfg cfg' same h = record {
  root = h.root;
  has_root = same ∙ h.has_root;
  has_level = h.has_level;
}

-- Where the levels are lowered without an exception, the root is verbose afterwards.
lower_levels-IsVerbose :
    (cfg root : Fields)
    → get_field "root" cfg ≡ some (obj root)
    → (lower_levels true cfg).0 ≡ ok tt
    → IsVerbose (lower_levels true cfg).1
unfolding lower_levels ◌>>=◌
lower_levels-IsVerbose cfg root found fine =
    elim (Result-cases (change_at "loggers" set_aqap cfg).0) [
      | inl (done, e) ↦
          let still = root-change_loggers cfg ∙ found in
          rw (e, resume, change_root (change_at "loggers" set_aqap cfg).1 root still)
            (IsVerbose-put_field (change_at "loggers" set_aqap cfg).1 root)
      | inr (x, e) ↦ let bad : err x ≡ ok tt = rw (e, resume) at fine in cc
    ]

-- A verbose root stays so, whether the levels are lowered or not, and whatever raises.
lower_levels-keeps :
    (debug : Bool) (cfg : Fields) → IsVerbose cfg → IsVerbose (lower_levels debug cfg).1
unfolding lower_levels ◌>>=◌
lower_levels-keeps false cfg h = h
lower_levels-keeps true cfg h = elim (Result-cases (change_at "loggers" set_aqap cfg).0) [
  | inl (done, e) ↦
      let still = root-change_loggers cfg ∙ h.has_root in
      rw (e, resume, change_root (change_at "loggers" set_aqap cfg).1 h.root still)
        (IsVerbose-put_field (change_at "loggers" set_aqap cfg).1 h.root)
  | inr (x, e) ↦
      rw (e, resume)
        (same_root-IsVerbose cfg (change_at "loggers" set_aqap cfg).1 (root-change_loggers cfg) h)
]

get_field-left :
    (key : String) (config : Option Fields) (cfg default : Fields) (value : Value)
    → get_field key default ≡ some value
    → is_shared value (override_at key config) ≡ true
    → get_field key (left config cfg default) ≡ some (get_field_or key value cfg)
unfolding left get_field
get_field-left key config cfg end value h shared = cc
get_field-left key config cfg (field j v rest) value h shared = elim (Bool-cases (j == key)) [
  | inl same ↦
      let e : j ≡ key = (eq_iff j key).0 same in
      let here : v ≡ value = cc (rw same at h) in rw (same, here, e, shared) refl
  | inr differs ↦ rw differs (get_field-left key config cfg rest value (rw differs at h) shared)
]

left-IsVerbose :
    (config : Option Fields) (cfg default fs : Fields)
    → get_field "root" default ≡ some (obj fs)
    → LeavesRoot config
    → IsVerbose cfg
    → IsVerbose (left config cfg default)
left-IsVerbose config cfg default fs found absent h = record {
  root = h.root;
  has_root =
      get_field-left "root" config cfg default (obj fs) found (rw absent refl)
      ∙ ap (λ v. some v)
          (get_field_or_lem "root" (obj fs) cfg ∙ ap (or_default (obj fs)) h.has_root);
  has_level = h.has_level;
}

configuration-keeps :
    (debug : Bool) (config : Option Fields) (default : Fields)
    → LeavesRoot config
    → IsVerbose default
    → IsVerbose (configuration debug config default).1
unfolding configuration
configuration-keeps debug config default absent h =
    lower_levels-keeps debug (merged_with config default) (
      same_root-IsVerbose default (merged_with config default)
        (root-merged_with config default absent) h)

module _ {W : Type 0} (dict_config : Fields → W → Result (Unit {0}) × W) where
  setup-default :
      (debug : Bool) (config : Option Fields) (s : Setup W)
      → (setup_logging dict_config debug config s).1.default
        ≡ left config (configuration debug config s.default).1 s.default
  unfolding setup_logging
  setup-default debug config s = elim (Result-cases (configuration debug config s.default).0) [
    | inl (done, e) ↦ rw (e, setup_logging) refl
    | inr (x, e) ↦ rw (e, setup_logging) refl
  ]

  setup-keeps :
      (debug : Bool) (config : Option Fields) (s : Setup W)
      → LeavesRoot config
      → IsVerbose s.default
      → IsVerbose (setup_logging dict_config debug config s).1.default
  setup-keeps debug config s absent h = rw (setup-default debug config s) (
      left-IsVerbose config (configuration debug config s.default).1 s.default h.root h.has_root
        absent (configuration-keeps debug config s.default absent h))

  -- calls of setup_logging, one after the other, whatever they raise
  abbrev pub calls : List (Bool × Option Fields) → Setup W → Setup W
  calls [] s = s
  calls ((debug, config) ∷ rest) s = calls rest (setup_logging dict_config debug config s).1

  abbrev AllLeaveRoot : List (Bool × Option Fields) → Type 0
  AllLeaveRoot [] = Unit
  AllLeaveRoot ((debug, config) ∷ rest) = LeavesRoot config × AllLeaveRoot rest

  calls-keeps :
      (later : List (Bool × Option Fields)) (s : Setup W)
      → AllLeaveRoot later
      → IsVerbose s.default
      → IsVerbose (calls later s).default
  calls-keeps [] s h k = k
  calls-keeps ((debug, config) ∷ rest) s (absent, h) k =
      calls-keeps rest (setup_logging dict_config debug config s).1 h
        (setup-keeps debug config s absent k)

  -- Once setup_logging has run with `debug`, and has made its configuration without an exception, the
  -- root logger stays at DEBUG: after any later calls, with or without `debug` and whatever raises, the
  -- configuration that a call makes still has it. None of the configurations given names the root
  -- logger, and the default has a dict for it.
  pub debug_stays :
      (first config : Option Fields) (later : List (Bool × Option Fields)) (debug : Bool)
      (s : Setup W) (root : Fields)
      → get_field "root" s.default ≡ some (obj root)
      → (configuration true first s.default).0 ≡ ok tt
      → LeavesRoot first
      → AllLeaveRoot later
      → LeavesRoot config
      → IsVerbose
          (configuration debug config
            (calls later (setup_logging dict_config true first s).1).default).1
  unfolding configuration
  debug_stays first config later debug s root found fine absent h absent' =
      let made : IsVerbose (configuration true first s.default).1 =
        lower_levels-IsVerbose (merged_with first s.default) root
          (root-merged_with first s.default absent ∙ found) fine in
      let begun : IsVerbose (setup_logging dict_config true first s).1.default =
        rw (setup-default true first s) (
          left-IsVerbose first (configuration true first s.default).1 s.default root found absent
            made) in
      configuration-keeps debug config
        (calls later (setup_logging dict_config true first s).1).default absent'
        (calls-keeps later (setup_logging dict_config true first s).1 h begun)
