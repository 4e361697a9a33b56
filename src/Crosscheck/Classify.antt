-- ===== src/Crosscheck/Classify.antt =====
-- `classify` of tools/xut/crosscheck.py: the findings among the views of one model source. A view's
-- key in the dictionary of views is its flow and its runner.
pub mod Flows
pub mod Loops
pub mod Members
pub mod Runs
pub mod Silent
pub mod Tests
pub mod Total
pub mod Views
use xilinx_unittests.Prelude.{
  String, Bool, true, false, not, ◌&&◌, if◌then◌else◌, str_eq, Option, none, some, List, [], ◌∷◌,
  ◌++◌, map, Result, ok, err, ◌>>=◌, map_err,
}
use xilinx_unittests.Names.{Chars}
use xilinx_unittests.Xtr.Compare.{compare}
use xilinx_unittests.Xtr.Diff.{diff}
use xilinx_unittests.Crosscheck.{
  View, Assertion, Pair, pair, has_trace, reject_cfgs, rejection_diff,
}
use xilinx_unittests.Crosscheck.Findings.{Class, Finding, Entry, view_at, mark}
use xilinx_unittests.Crosscheck.Points.{
  Point, Oddity, comparison, Found, nothing_found, then_found, x_observable, str_lt,
  without_repeats, sort_with, finding_of, if_points, golden_point,
}
use xilinx_unittests.Crosscheck.Sims.{found_in, is_sim, sim_flows, group_of, traced, flow_found}

-- `exp`, where it has a trace.
abbrev pub golden_view : List View → Option View
golden_view views = traced (view_at "rtl" "python" views)

abbrev pub failed_selftest : Option String → Bool
failed_selftest none = false
failed_selftest (some s) = str_eq s "fail"

module _ (test_id : Chars) (views : List View) where
  -- The body of the loop over the views, one function for each of its tests.
  abbrev pub dependence : View → Found
  dependence v = record nothing_found {
    findings =
        if str_eq v.runner "verilator" && v.x_dependence
        then finding_of Class.x_dependence test_id v.flow v.model_source ("verilator" ∷ [])
            (Point.seeds_disagree ∷ [])
          ∷ []
        else [];
  }

  -- `v` against the run it has to agree with.
  abbrev pub against_of : Class → List String → Bool → View → View → Pair → Found
  against_of c rs x ref v p = record {
    findings = if_points c test_id v.flow v.model_source rs (
        map Point.of_runs (diff x x p.a p.b)
        ++ map Point.of_rejection (rejection_diff ref v (reject_cfgs views)));
    issues = [];
    pairs = comparison ref v p ∷ [];
  }

  unfoldable pub against : Class → List String → Bool → Option View → View → Result Assertion Found
  unfolding pair diff rejection_diff
  against c rs x none v = ok nothing_found
  against c rs x (some ref) v = do p ← pair ref v false x x; ok (against_of c rs x ref v p)

  abbrev pub transformed : View → Result Assertion Found
  transformed v =
      if str_eq v.runner "iverilog-vz" && has_trace v
      then against Class.transform_bug ("iverilog" ∷ "iverilog-vz" ∷ []) true
          (traced (view_at v.flow "iverilog" views)) v
      else ok nothing_found

  abbrev pub across_flows : View → Result Assertion Found
  across_flows v =
      if not (str_eq v.flow "rtl") && is_sim v
      then against Class.flow_mismatch (v.runner ∷ []) (x_observable v.runner)
          (traced (view_at "rtl" v.runner views)) v
      else ok nothing_found

  abbrev pub hw_finding : Class → Point → View → Found
  hw_finding c p v = record nothing_found {
    findings = finding_of c test_id v.flow none ("hw" ∷ []) (p ∷ []) ∷ [];
  }

  unfoldable pub silicon : Option View → View → Result Assertion Found
  unfolding pair compare
  silicon none v = ok nothing_found
  silicon (some gold) v =
      if has_trace v
      then (pair gold v true true false >>= λ p. ok (record {
        findings =
            if_points Class.silicon_mismatch test_id v.flow none ("hw" ∷ [])
              (map golden_point (compare false p.a p.b));
        issues = [];
        pairs = comparison gold v p ∷ [];
      }))
      else ok nothing_found

  abbrev pub on_hardware : View → Result Assertion Found
  on_hardware v =
      if not (str_eq v.runner "hw")
      then ok nothing_found
      else if failed_selftest v.selftest
      then ok (hw_finding Class.harness_error Point.selftest_failed v)
      else do
        found ← silicon (golden_view views) v
        ok (
            then_found
              (if v.repeats_differ
                then hw_finding Class.nondeterminism Point.runs_disagree v
                else nothing_found)
              found)

  unfoldable pub view_found : View → Result Assertion Found
  unfolding against silicon
  view_found v = do
    t ← transformed v
    a ← across_flows v
    h ← on_hardware v
    ok (then_found (dependence v) (then_found t (then_found a h)))

  unfoldable pub gathered : Result Assertion Found
  unfolding found_in flow_found view_found sort_with
  gathered = do
    flows ←
        found_in
          (λ flow.
            flow_found test_id (golden_view views) (reject_cfgs views) flow (group_of flow views))
          (sort_with str_lt (without_repeats (sim_flows views)))
    rest ← found_in view_found views
    ok (then_found flows rest)

-- `_mark` of every finding; `none` where the test's id has no primitive or no slug.
abbrev pub entries_of : Finding Point → List Entry → List Oddity
entries_of f es = map (Oddity.not_matched f) es

pub data Failure : Type 0 where
  no_trace bad_id : Failure

abbrev pub failure_of : Assertion → Failure
failure_of Assertion.no_trace = no_trace

abbrev pub Marked : Type 0
Marked = List (Finding Point) × List Oddity

abbrev pub onto_marked :
    Finding Point
    → Option (Finding Point × List Entry)
    → Result Failure Marked
    → Result Failure Marked
onto_marked f none rest = err bad_id
onto_marked f (some m) rest = do r ← rest; ok (m.0 ∷ r.0, entries_of f m.1 ++ r.1)

-- `[_mark(f, ..., issues) for f in out]`
unfoldable pub mark_all :
    (Chars → Chars) → List Entry → List (Finding Point) → Result Failure Marked
unfolding mark
mark_all stem es [] = ok ([], [])
mark_all stem es (f ∷ fs) = let rest = mark_all stem es fs in onto_marked f (mark stem f es) rest

unfoldable pub classify : (Chars → Chars) → Chars → List View → List Entry → Result Failure Found
unfolding gathered mark_all
classify stem test_id views es = do
  g ← map_err failure_of (gathered test_id views)
  m ← mark_all stem es g.findings
  ok (record { findings = m.0; issues = g.issues ++ m.1; pairs = g.pairs })
