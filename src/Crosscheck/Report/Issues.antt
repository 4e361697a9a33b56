-- ===== src/Crosscheck/Report/Issues.antt =====
-- When a result has no issue, and what an exit code says.
use xilinx_unittests.Prelude.{
  Bool, true, false, not, ◌&&◌, if◌then◌else◌, ◌≡◌, ◌≢◌, refl, ◌↔◌, ◌⊎◌, inl, inr, Bool-cases,
  arith, Option, none, some, List, [], ◌∷◌, All,
}
use xilinx_unittests.Crosscheck.{Status, Config, View, is_filled}
use xilinx_unittests.Crosscheck.Findings.{
  Finding, is_fail, is_error, is_explained, companion_explained,
}
use xilinx_unittests.Crosscheck.Report.Explained.{Explained, is_explained_iff}
use xilinx_unittests.Crosscheck.Report.Companions.{CompanionExplained, companion_explained_iff}
use xilinx_unittests.Crosscheck.Report.{
  Issue, config_errors, errors_of, result_issues, Report, unlisted, exit_code,
}

-- No configuration of the result ended in an error.
abbrev pub NoConfigError : Option (List Config) → Type 0
NoConfigError none = Unit
NoConfigError (some cs) = All (λ (c : Config). is_error c.status ≡ false) cs

config_errors-none :
    (cs : List Config)
    → (config_errors cs ≡ []) ↔ All (λ (c : Config). is_error c.status ≡ false) cs
config_errors-none [] = (λ h. tt, λ h. refl)
config_errors-none (c ∷ cs) =
    let later = config_errors-none cs in
    elim (Bool-cases (is_error c.status)) [
      | inl q ↦ rw q (λ h. cc, λ h. cc h.0)
      | inr q ↦ rw q (λ h. (refl, later.0 h), λ h. later.1 h.1)
    ]

filled_of : {A : Type 0} (xs : List A) → (is_filled xs ≡ false) ↔ (xs ≡ [])
filled_of [] = (λ h. refl, λ h. refl)
filled_of (x ∷ xs) = (λ h. cc, λ h. cc)

errors_of-none : (v : View) → (is_filled (errors_of v) ≡ false) ↔ NoConfigError v.configs
errors_of-none v = of_configs v.configs
  where
    of_configs :
        (c : Option (List Config))
        → (is_filled (elim c [ none ↦ [] | some cs ↦ config_errors cs ]) ≡ false) ↔ NoConfigError c
    of_configs none = (λ h. tt, λ h. refl)
    of_configs (some cs) =
        let filled = filled_of (config_errors cs) in
        let none_bad = config_errors-none cs in
        (λ h. none_bad.0 (filled.0 h), λ h. filled.1 (none_bad.1 h))

fail_rule :
    (c f x y : Bool)
    → ((if c && f && not x && not y then Issue.unexplained_fail ∷ [] else []) ≡ [])
      ↔ ((c ≡ false) ⊎ (f ≡ false) ⊎ (x ≡ true) ⊎ (y ≡ true))
fail_rule false f x y = (λ h. inl refl, λ h. refl)
fail_rule true false x y = (λ h. inr (inl refl), λ h. refl)
fail_rule true true true y = (λ h. inr (inr (inl refl)), λ h. refl)
fail_rule true true false true = (λ h. inr (inr (inr refl)), λ h. refl)
fail_rule true true false false = (λ h. cc, λ h. ground arith)

-- The same by the tests of the code.
result_issues-tests :
    {P : Type 0} (v : View) (fs : List (Finding P)) (classified : Bool) (views : Option (List View))
    → (result_issues v fs classified views ≡ []) ↔ (
        NoConfigError v.configs
        × (is_error v.status ≡ false)
        × ((classified ≡ false)
            ⊎ (is_fail v.status ≡ false)
            ⊎ (is_explained v fs ≡ true)
            ⊎ (companion_explained v fs views ≡ true)))
unfolding result_issues
result_issues-tests v fs classified views =
    let errors = errors_of-none v in
    elim (Bool-cases (is_filled (errors_of v))) [
      | inl q ↦
          rw q (
            λ h. absurd (cc ((filled_of (errors_of v)).1 h, q)),
            λ h. absurd (cc (errors.1 h.0, q)),
          )
      | inr q ↦
          let fails =
            fail_rule classified (is_fail v.status) (is_explained v fs)
              (companion_explained v fs views) in
          elim (Bool-cases (is_error v.status)) [
            | inl e ↦ rw (q, e) (λ h. cc, λ h. cc h.1)
            | inr e ↦ rw (q, e) (λ h. (errors.0 q, refl, fails.0 h), λ h. fails.1 h.2)
          ]
    ]

is_error_iff : (s : Status) → (is_error s ≡ false) ↔ (s ≢ Status.error)
is_error_iff Status.error = (λ h. cc h, λ h. absurd (h refl))
is_error_iff Status.pass = (λ h e. cc e, λ h. refl)
is_error_iff Status.fail = (λ h e. cc e, λ h. refl)
is_error_iff Status.skip = (λ h e. cc e, λ h. refl)
is_error_iff Status.not_run = (λ h e. cc e, λ h. refl)

is_fail_iff : (s : Status) → (is_fail s ≡ false) ↔ (s ≢ Status.fail)
is_fail_iff Status.fail = (λ h. cc h, λ h. absurd (h refl))
is_fail_iff Status.pass = (λ h e. cc e, λ h. refl)
is_fail_iff Status.error = (λ h e. cc e, λ h. refl)
is_fail_iff Status.skip = (λ h e. cc e, λ h. refl)
is_fail_iff Status.not_run = (λ h e. cc e, λ h. refl)

-- A result has no issue exactly where none of its configurations and not the whole ended in an error, and,
-- where its views were classified, it did not fail, or some finding on values that applies to it names its
-- runner, or it is of the rewritten Verilog and its fail is that of the run of iverilog that it accompanies:
-- that run failed and is explained by such a finding, no finding on the rewriting applies to the result, and
-- where the result has configurations, it failed at least one, and none that the other did not fail.
pub result_issues_iff :
    {P : Type 0} (v : View) (fs : List (Finding P)) (classified : Bool) (views : Option (List View))
    → (result_issues v fs classified views ≡ []) ↔ (
        NoConfigError v.configs
        × (v.status ≢ Status.error)
        × ((classified ≡ false)
            ⊎ (v.status ≢ Status.fail)
            ⊎ Explained v fs
            ⊎ CompanionExplained v fs views))
result_issues_iff v fs classified views =
    let tests = result_issues-tests v fs classified views in
    let explained = is_explained_iff v fs in
    let companion = companion_explained_iff v fs views in
    (
      λ h.
          let (configs, error, rest) = tests.0 h in
          (configs, (is_error_iff v.status).0 error, by_rules explained companion rest),
      λ h. tests.1 (h.0, (is_error_iff v.status).1 h.1, by_tests explained companion h.2),
    )
  where
    by_rules :
        {a b : Bool} {X Y : Type 0}
        → ((a ≡ true) ↔ X)
        → ((b ≡ true) ↔ Y)
        → (classified ≡ false) ⊎ (is_fail v.status ≡ false) ⊎ (a ≡ true) ⊎ (b ≡ true)
        → (classified ≡ false) ⊎ (v.status ≢ Status.fail) ⊎ X ⊎ Y
    by_rules x y (inl h) = inl h
    by_rules x y (inr (inl h)) = inr (inl ((is_fail_iff v.status).0 h))
    by_rules x y (inr (inr (inl h))) = inr (inr (inl (x.0 h)))
    by_rules x y (inr (inr (inr h))) = inr (inr (inr (y.0 h)))

    by_tests :
        {a b : Bool} {X Y : Type 0}
        → ((a ≡ true) ↔ X)
        → ((b ≡ true) ↔ Y)
        → (classified ≡ false) ⊎ (v.status ≢ Status.fail) ⊎ X ⊎ Y
        → (classified ≡ false) ⊎ (is_fail v.status ≡ false) ⊎ (a ≡ true) ⊎ (b ≡ true)
    by_tests x y (inl h) = inl h
    by_tests x y (inr (inl h)) = inr (inl ((is_fail_iff v.status).1 h))
    by_tests x y (inr (inr (inl h))) = inr (inr (inl (x.1 h)))
    by_tests x y (inr (inr (inr h))) = inr (inr (inr (y.1 h)))

-- The exit code is 0 exactly where every finding is a known divergence and there is no issue.
pub exit_code_iff :
    {P I : Type 0} (r : Report P I)
    → (exit_code r ≡ 0) ↔ ((unlisted r.findings ≡ []) × (r.issues ≡ []))
unfolding exit_code
exit_code_iff r =
    let listed = filled_of (unlisted r.findings) in
    let quiet = filled_of r.issues in
    elim (Bool-cases (is_filled (unlisted r.findings))) [
      | inl q ↦ rw q (λ h. absurd (omega (arith, h)), λ h. absurd (cc (listed.1 h.0, q)))
      | inr q ↦ elim (Bool-cases (is_filled r.issues)) [
        | inl k ↦ rw (q, k) (λ h. absurd (omega (arith, h)), λ h. absurd (cc (quiet.1 h.1, k)))
        | inr k ↦ rw (q, k) (λ h. (listed.0 q, quiet.0 k), λ h. refl)
      ]
    ]
