-- ===== src/Crosscheck/Report.antt =====
-- The issues of a result, and the verdict and exit code of a `Report`, of tools/xut/crosscheck.py.
pub mod Companions
pub mod Explained
pub mod Issues
use xilinx_unittests.Prelude.{
  ℕ, Bool, true, false, not, ◌&&◌, if◌then◌else◌, Option, none, some, List, [], ◌∷◌,
}
use xilinx_unittests.Names.{Chars}
use xilinx_unittests.Crosscheck.{Status, Config, View, is_filled}
use xilinx_unittests.Crosscheck.Findings.{
  Class, class_eq, Finding, is_fail, is_error, is_explained, companion_explained,
}

-- `_result_issues`, without its text.
pub data Issue : Type 0 where
  config_error : Chars → Issue
  result_error unexplained_fail : Issue

abbrev pub config_errors : List Config → List Issue
config_errors [] = []
config_errors (c ∷ cs) =
    let rest = config_errors cs in
    if is_error c.status then Issue.config_error c.cfg ∷ rest else rest

abbrev pub errors_of : View → List Issue
errors_of v = elim v.configs [ none ↦ [] | some cs ↦ config_errors cs ]

unfoldable pub result_issues :
    {P : Type 0} → View → List (Finding P) → Bool → Option (List View) → List Issue
result_issues v fs classified views =
    if is_filled (errors_of v)
    then errors_of v
    else if is_error v.status
    then Issue.result_error ∷ []
    else if classified
        && is_fail v.status
        && not (is_explained v fs)
        && not (companion_explained v fs views)
    then Issue.unexplained_fail ∷ []
    else []

-- `Report`: what the verdict and the exit code are made of.
pub record Report (P I : Type 0) : Type 0 where
  pub findings : List (Finding P)
  pub issues : List I
  pub compared : Bool
  pub has_views : Bool

pub data Verdict : Type 0 where
  divergence incomplete known_divergence agree uncompared not_run : Verdict

abbrev pub unlisted : {P : Type 0} → List (Finding P) → List (Finding P)
unlisted [] = []
unlisted (f ∷ fs) =
    let rest = unlisted fs in if class_eq f.cls Class.known_divergence then rest else f ∷ rest

module _ {P I : Type 0} where
  unfoldable pub verdict : Report P I → Verdict
  verdict r =
      if is_filled (unlisted r.findings)
      then divergence
      else if is_filled r.issues
      then incomplete
      else if is_filled r.findings
      then known_divergence
      else if r.compared
      then agree
      else if r.has_views
      then uncompared
      else not_run

  unfoldable pub exit_code : Report P I → ℕ
  exit_code r = if is_filled (unlisted r.findings) then 3 else if is_filled r.issues then 4 else 0
