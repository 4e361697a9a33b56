-- ===== src/Crosscheck/Points.antt =====
-- What `classify` of tools/xut/crosscheck.py gathers: the points of a finding, the issues that are no
-- finding, and the comparisons made; with `_point`, `_bit_prov` and `_observes`, and `sorted` for a set.
use xilinx_unittests.Prelude.{
  ℕ, String, Bool, true, false, not, ◌&&◌, ◌||◌, ◌==◌, if◌then◌else◌, str_eq, Option, none, some,
  List, [], ◌∷◌, ◌++◌,
}
use xilinx_unittests.Names.{Chars, member}
use xilinx_unittests.Xtr.Compare.{Mismatch, Shown}
use xilinx_unittests.Xtr.Diff.{chars_lt}
use xilinx_unittests.Xtr.Prov.{bit_prov}
use xilinx_unittests.Golden.{codes}
use xilinx_unittests.Crosscheck.{View, Rejection, Pair, cfg_of, is_filled, ran}
use xilinx_unittests.Crosscheck.Findings.{Class, Finding, Entry, has_string, new_finding}

-- A point without its text. One of a golden comparison has the provenance of its bit.
pub data Point : Type 0 where
  between : String → String → Mismatch → Point
  rejection_between : String → String → Rejection → Point
  only_of : String → Mismatch → Option Chars → Point
  of_golden : Mismatch → Option Chars → Point
  accepted_by : Chars → List String → Point
  of_runs : Mismatch → Point
  of_rejection : Rejection → Point
  seeds_disagree selftest_failed runs_disagree : Point

-- What is appended to `issues`; the one of `_mark` has the entry in scope under another id.
pub data Oddity : Type 0 where
  structural : Option String → List String → Mismatch → Oddity
  unknown_prov : Option String → Chars → Mismatch → Oddity
  not_matched : Finding Point → Entry → Oddity

-- An entry of `pairs`; a side is a flow and a runner.
pub record Compared : Type 0 where
  pub a : String × String
  pub b : String × String
  pub evidence : Bool

abbrev pub comparison : View → View → Pair → Compared
comparison a b p = record { a = (a.flow, a.runner); b = (b.flow, b.runner); evidence = p.evidence }

pub record Found : Type 0 where
  pub findings : List (Finding Point)
  pub issues : List Oddity
  pub pairs : List Compared

abbrev pub nothing_found : Found
nothing_found = record { findings = []; issues = []; pairs = [] }

abbrev pub then_found : Found → Found → Found
then_found f g = record {
  findings = f.findings ++ g.findings;
  issues = f.issues ++ g.issues;
  pairs = f.pairs ++ g.pairs;
}

-- `X_OBSERVABLE.get(runner, True)`
abbrev pub x_observable : String → Bool
x_observable r = not (str_eq r "verilator" || str_eq r "hw")

-- `sorted` of a set of texts, and of its views by their runner.
abbrev pub str_lt : String → String → Bool
str_lt r s = chars_lt (codes r) (codes s)

abbrev pub runner_lt : View → View → Bool
runner_lt v w = str_lt v.runner w.runner

abbrev pub without_repeats : List String → List String
without_repeats [] = []
without_repeats (r ∷ rs) =
    let rest = without_repeats rs in if has_string rs r then rest else r ∷ rest

module _ {A : Type 0} (lt : A → A → Bool) where
  unfoldable pub insert_with : A → List A → List A
  insert_with x [] = x ∷ []
  insert_with x (y ∷ ys) = let rest = insert_with x ys in if lt y x then y ∷ rest else x ∷ y ∷ ys

  unfoldable pub sort_with : List A → List A
  unfolding insert_with
  sort_with [] = []
  sort_with (x ∷ xs) = insert_with x (sort_with xs)

-- `_f`, of a set of runners.
abbrev pub finding_of :
    Class → Chars → String → Option String → List String → List Point → Finding Point
finding_of c t flow ms rs points =
    new_finding c t flow ms (sort_with str_lt (without_repeats rs)) points

-- `if points: out.append(_f(...))`
abbrev pub if_points :
    Class → Chars → String → Option String → List String → List Point → List (Finding Point)
if_points c t flow ms rs points =
    if is_filled points then finding_of c t flow ms rs points ∷ [] else []

-- `_bit_prov`; a bit that the provenance has not (IndexError) has the whole of it.
abbrev pub prov_at : Chars → Option ℕ → Chars
prov_at tag none = tag
prov_at tag (some i) = elim (bit_prov tag i) [ none ↦ tag | some t ↦ t ]

abbrev pub prov_of : Mismatch → Option Chars
prov_of m = elim m.prov [ none ↦ none | some tag ↦ some (prov_at tag m.bit) ]

-- `_point`
abbrev pub golden_point : Mismatch → Point
golden_point m = of_golden m (prov_of m)

abbrev pub is_unknown : Shown → Bool
is_unknown (Shown.text (c ∷ [])) = c == b'x' || c == b'z'
is_unknown _ = false

abbrev pub ran_label : Option (List Chars) → Chars → Bool
ran_label none l = true
ran_label (some cfgs) l = member (cfg_of l) cfgs

-- `_observes`
abbrev pub observes : Mismatch → View → Bool
observes m v = ran_label (ran v) m.label && (x_observable v.runner || not (is_unknown m.expected))
