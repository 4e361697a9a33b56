-- ===== src/Crosscheck/Check/Tests.antt =====
-- A test whose results agree, and its report.
use xilinx_unittests.Prelude.{true, ◌≡◌, refl, some, List, [], ◌∷◌, All, ok}
use xilinx_unittests.Golden.{codes}
use xilinx_unittests.Crosscheck.{View}
use xilinx_unittests.Crosscheck.Points.{Point}
use xilinx_unittests.Crosscheck.Report.{Report, Verdict, verdict}
use xilinx_unittests.Crosscheck.Classify.Tests.{view_of, as_is, test_id}
use xilinx_unittests.Crosscheck.Accounts.{TestIssue, provenance_issues}
use xilinx_unittests.Crosscheck.Check.{check}
use xilinx_unittests.Crosscheck.Check.Quiet.{Agreeing}
use xilinx_unittests.Crosscheck.Check.Agree.{check-Agreeing}

abbrev results : List View
results =
    view_of "rtl" "python" (codes "1x")
    ∷ view_of "rtl" "xsim" (codes "1x")
    ∷ view_of "synth" "xsim" (codes "1x")
    ∷ []

abbrev report : Report Point TestIssue
report = record { findings = []; issues = []; compared = true; has_views = true }

reported : check as_is test_id [] (results ∷ []) ≡ ok report
unfolding check xilinx_unittests.Xtr.lookup xilinx_unittests.Xtr.put
reported = refl

agreed : verdict report ≡ Verdict.agree
unfolding verdict
agreed = refl

check-Agreeing_example : All Agreeing (results ∷ [])
check-Agreeing_example = check-Agreeing as_is test_id [] (results ∷ []) report reported agreed

-- Two results at different trees.
abbrev moved : List View
moved =
    record (view_of "rtl" "python" (codes "1x")) { tree_hash = some (codes "77b2") }
    ∷ view_of "rtl" "xsim" (codes "1x")
    ∷ []

mixed : provenance_issues moved ≡ TestIssue.mixed_trees ∷ []
unfolding provenance_issues
mixed = refl
