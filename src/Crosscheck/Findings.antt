-- ===== src/Crosscheck/Findings.antt =====
-- The findings of tools/xut/crosscheck.py: `_f`, `covers`, `_mark`, and what explains
-- a fail; with the finding ids of tools/xut/testspec.py. The text of a point is a parameter, `P`.
pub mod Marks
use xilinx_unittests.Prelude.{
  ℕ, ◌-◌, ◌==◌, String, Bool, true, false, not, ◌&&◌, if◌then◌else◌, str_eq, Option, none, some,
  List, [], ◌∷◌, ◌++◌, any, all, length, take, map,
}
use xilinx_unittests.Names.{Chars, chars_eq, member}
use xilinx_unittests.Golden.{codes}
use xilinx_unittests.Crosscheck.{Status, Config, View, is_filled}

-- `FINDING_CLASSES`
pub data Class : Type 0 where
  doc_vs_model doc_gap sim_divergence x_dependence transform_bug : Class
  flow_mismatch silicon_mismatch nondeterminism harness_error known_divergence : Class

abbrev pub class_name : Class → Chars
class_name Class.doc_vs_model = codes "doc-vs-model"
class_name Class.doc_gap = codes "doc-gap"
class_name Class.sim_divergence = codes "sim-divergence"
class_name Class.x_dependence = codes "x-dependence"
class_name Class.transform_bug = codes "transform-bug"
class_name Class.flow_mismatch = codes "flow-mismatch"
class_name Class.silicon_mismatch = codes "silicon-mismatch"
class_name Class.nondeterminism = codes "nondeterminism"
class_name Class.harness_error = codes "harness-error"
class_name Class.known_divergence = codes "known-divergence"

abbrev pub class_eq : Class → Class → Bool
class_eq c d = chars_eq (class_name c) (class_name d)

pub record Finding (P : Type 0) : Type 0 where
  pub cls : Class
  pub test_id : Chars
  pub flow : String
  pub model_source : Option String
  pub runners : List String
  pub points : List P
  pub more : ℕ
  pub expected : Bool
  pub known_of : Option Class
  pub finding : Option Chars

abbrev pub max_points : ℕ
max_points = 200

-- The runners come sorted; a point that stands for the rest is the number `more`.
abbrev pub new_finding :
    {P : Type 0} → Class → Chars → String → Option String → List String → List P → Finding P
new_finding c t f ms rs points = record {
  cls = c;
  test_id = t;
  flow = f;
  model_source = ms;
  runners = rs;
  points = take max_points points;
  more = length points - max_points;
  expected = false;
  known_of = none;
  finding = none;
}

-- An entry of `expected_divergence`.
pub record Entry : Type 0 where
  pub finding : Chars
  pub cls : Class
  pub runners : List String
  pub model_sources : Option (List String)
  pub flows : Option (List String)

abbrev pub has_string : List String → String → Bool
has_string xs s = any (str_eq s) xs

-- `key not in e or value in e[key]`
abbrev pub in_scope : Option (List String) → Option String → Bool
in_scope none value = true
in_scope (some xs) none = false
in_scope (some xs) (some s) = has_string xs s

unfoldable pub covers : {P : Type 0} → Entry → Finding P → Bool
covers e f =
    class_eq e.cls f.cls
    && all (has_string e.runners) f.runners
    && in_scope e.model_sources f.model_source
    && in_scope e.flows (some f.flow)

-- `test_id.split(".", 2)`; `none` is the IndexError.
abbrev pub after_dot : Chars → Option Chars
after_dot [] = none
after_dot (c ∷ s) = let rest = after_dot s in if c == b'.' then some s else rest

abbrev pub before_dot : Chars → Chars
before_dot [] = []
before_dot (c ∷ s) = let rest = before_dot s in if c == b'.' then [] else c ∷ rest

abbrev pub prim_of : Chars → Option Chars
prim_of t = elim (after_dot t) [ none ↦ none | some s ↦ some (before_dot s) ]

abbrev pub dashed : Chars → Chars
dashed s = map (λ c. if c == b'.' then b'-' else c) s

abbrev pub finding_slug : Class → Chars → Option Chars
finding_slug c t = elim (after_dot t) [
  | none ↦ none
  | some s ↦ elim (after_dot s) [ none ↦ none | some u ↦ some (class_name c ++ b'-' ∷ dashed u) ]
]

unfoldable pub finding_id : Chars → Class → Chars → Option Chars
finding_id prim c t = elim (finding_slug c t) [ none ↦ none | some s ↦ some (prim ++ b'-' ∷ s) ]

-- `VALUE_CLASSES`
abbrev pub is_value_class : Class → Bool
is_value_class c = any (class_eq c) (
    Class.sim_divergence ∷ Class.doc_vs_model ∷ Class.doc_gap ∷ Class.transform_bug
    ∷ Class.flow_mismatch ∷ Class.silicon_mismatch ∷ [])

abbrev pub applies_to_source : Option String → Option String → Bool
applies_to_source none ms = true
applies_to_source (some s) none = false
applies_to_source (some s) (some t) = str_eq s t

abbrev pub is_fail : Status → Bool
is_fail Status.fail = true
is_fail _ = false

abbrev pub is_error : Status → Bool
is_error Status.error = true
is_error _ = false

abbrev pub failed_of : List Config → List Chars
failed_of [] = []
failed_of (c ∷ cs) = let rest = failed_of cs in if is_fail c.status then c.cfg ∷ rest else rest

abbrev pub failed_cfgs : View → Option (List Chars)
failed_cfgs v = elim v.configs [ none ↦ none | some cs ↦ some (failed_of cs) ]

abbrev pub view_at : String → String → List View → Option View
view_at flow runner [] = none
view_at flow runner (v ∷ vs) =
    if str_eq v.flow flow && str_eq v.runner runner then some v else view_at flow runner vs

-- Whether the companion failed only configurations that iverilog failed, too.
abbrev pub is_within : Option (List Chars) → Option (List Chars) → Bool
is_within none iv = true
is_within (some vz) none = false
is_within (some vz) (some iv) = is_filled vz && all (λ c. member c iv) vz

module _ {P : Type 0} where
  -- The finding as it is reported where an entry lists it.
  abbrev pub known : Finding P → Chars → Finding P
  known f id = record f {
    cls = Class.known_divergence;
    expected = true;
    known_of = some f.cls;
    finding = some id;
  }

  -- The loop of `_mark`: the finding, and the entries that are in scope under another id. `stem` is the name
  -- of a path without its folder and its suffix, which is pathlib's.
  unfoldable pub mark_from :
      (Chars → Chars) → Chars → Finding P → List Entry → Finding P × List Entry
  mark_from stem want f [] = (f, [])
  mark_from stem want f (e ∷ es) =
      let rest = mark_from stem want f es in
      if not (covers e f)
      then rest
      else if chars_eq (stem e.finding) want
      then (known f want, [])
      else (rest.0, e ∷ rest.1)

  unfoldable pub mark : (Chars → Chars) → Finding P → List Entry → Option (Finding P × List Entry)
  unfolding mark_from finding_id
  mark stem f es = elim (prim_of f.test_id) [
    | none ↦ none
    | some prim ↦ elim (finding_id prim f.cls f.test_id) [
      | none ↦ none
      | some want ↦ some (mark_from stem want f es)
    ]
  ]

  -- `f.known_of or f.cls`
  abbrev pub shown_class : Finding P → Class
  shown_class f = elim f.known_of [ none ↦ f.cls | some c ↦ c ]

  abbrev pub applies : Finding P → View → Bool
  applies f v = str_eq f.flow v.flow && applies_to_source f.model_source v.model_source

  abbrev pub is_explained : View → List (Finding P) → Bool
  is_explained v fs =
      any (λ f. is_value_class (shown_class f) && has_string f.runners v.runner && applies f v) fs

  abbrev pub explained_by : View → List (Finding P) → Option View → Bool
  explained_by v fs none = false
  explained_by v fs (some iv) =
      is_fail iv.status
      && is_explained iv fs
      && is_within (failed_cfgs v) (failed_cfgs iv)
      && not (any (λ f. class_eq (shown_class f) Class.transform_bug && applies f v) fs)

  -- `_companion_explained`; `none` where the other views are not known.
  unfoldable pub companion_explained : View → List (Finding P) → Option (List View) → Bool
  companion_explained v fs none = false
  companion_explained v fs (some vs) =
      str_eq v.runner "iverilog-vz" && explained_by v fs (view_at v.flow "iverilog" vs)
