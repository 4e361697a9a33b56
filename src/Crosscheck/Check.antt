-- ===== src/Crosscheck/Check.antt =====
-- `check` of tools/xut/crosscheck.py: the report of a test over its model sources. The views of a source are
-- those with the results that are declared and missing, as not run. What it then says of the files of
-- expected divergences is left aside, and the notes, which no verdict depends on.
pub mod Agree
pub mod Quiet
pub mod Stamps
pub mod Tests
use xilinx_unittests.Prelude.{
  Bool, true, false, ◌&&◌, ◌||◌, if◌then◌else◌, str_eq, Option, none, some, List, [], ◌∷◌, ◌++◌,
  map, Result, ok, ◌>>=◌, map_err,
}
use xilinx_unittests.Names.{Chars}
use xilinx_unittests.Crosscheck.{Status, View, Assertion}
use xilinx_unittests.Crosscheck.Companion.{Gap, companion_gap}
use xilinx_unittests.Crosscheck.Findings.{Finding, Entry, view_at}
use xilinx_unittests.Crosscheck.Points.{Point, Found, sort_with}
use xilinx_unittests.Crosscheck.Classify.{Failure, failure_of, classify}
use xilinx_unittests.Crosscheck.Report.{Report, result_issues}
use xilinx_unittests.Crosscheck.Accounts.{
  TestIssue, view_lt, issues_over, provenance_issues, is_evidence, evidence_issues, golden_cfgs,
  absent_at,
}

abbrev pub is_passing : Status → Bool
is_passing Status.pass = true
is_passing _ = false

-- The gap of a pass of Verilator.
abbrev pub gap_issue : View → Option Gap → List TestIssue
gap_issue v none = []
gap_issue v (some g) = TestIssue.unconfirmed v.flow g ∷ []

abbrev pub gap_at : List View → View → Result Assertion (Option Gap)
gap_at views v =
    if str_eq v.runner "verilator" && is_passing v.status
    then companion_gap (view_at v.flow "iverilog-vz" views) (view_at v.flow "iverilog" views)
    else ok none

unfoldable pub gaps_over : List View → List View → Result Assertion (List TestIssue)
unfolding companion_gap
gaps_over views [] = ok []
gaps_over views (v ∷ vs) = do
  here ← gap_at views v
  later ← gaps_over views vs
  ok (gap_issue v here ++ later)

abbrev pub result_issues_at :
    List (Finding Point) → Bool → Option (List View) → View → List TestIssue
result_issues_at fs classified views v =
    map (TestIssue.of_result v.flow v.runner) (result_issues v fs classified views)

-- The body of the loop over the model sources: what a source adds to the report.
pub record Added : Type 0 where
  pub findings : List (Finding Point)
  pub issues : List TestIssue
  pub with_evidence : Bool

abbrev pub stale_source : List View → List TestIssue → Added
stale_source views stale = record {
  findings = [];
  issues = stale ++ issues_over (result_issues_at [] false none) views;
  with_evidence = false;
}

abbrev pub classified_source : List View → Found → List TestIssue → Added
classified_source views f gaps =
    let in_order = sort_with view_lt views in
    record {
      findings = f.findings;
      issues =
          map TestIssue.odd f.issues
          ++ (evidence_issues views f.pairs
              ++ (gaps
                  ++ (issues_over (absent_at (golden_cfgs (view_at "rtl" "python" views))) in_order
                      ++ issues_over (result_issues_at f.findings true (some views)) in_order)));
      with_evidence = is_evidence f.pairs;
    }

-- `if stale: ... continue`, and what follows it.
unfoldable pub source_from :
    (Chars → Chars) → Chars → List Entry → List View → List TestIssue → Result Failure Added
unfolding evidence_issues issues_over classify gaps_over result_issues
source_from stem test_id es views (s ∷ stale) = ok (stale_source views (s ∷ stale))
source_from stem test_id es views [] = do
  f ← classify stem test_id views es
  gaps ← map_err failure_of (gaps_over views (sort_with view_lt views))
  ok (classified_source views f gaps)

unfoldable pub check_source :
    (Chars → Chars) → Chars → List Entry → List View → Result Failure Added
unfolding provenance_issues source_from
check_source stem test_id es views = source_from stem test_id es views (provenance_issues views)

-- `check`, over the views of each model source.
abbrev pub with_added : Added → Report Point TestIssue → Report Point TestIssue
with_added a r = record {
  findings = a.findings ++ r.findings;
  issues = a.issues ++ r.issues;
  compared = a.with_evidence || r.compared;
  has_views = true;
}

abbrev pub empty_report : Report Point TestIssue
empty_report = record { findings = []; issues = []; compared = false; has_views = false }

unfoldable pub check :
    (Chars → Chars)
    → Chars
    → List Entry
    → List (List View)
    → Result Failure (Report Point TestIssue)
unfolding check_source
check stem test_id es [] = ok empty_report
check stem test_id es (views ∷ sources) = do
  here ← check_source stem test_id es views
  later ← check stem test_id es sources
  ok (with_added here later)
