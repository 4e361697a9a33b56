-- ===== src/Crosscheck/Check/Agree.antt =====
-- What the verdict `agree` of a test means.
use xilinx_unittests.Prelude.{
  true, false, ◌≡◌, refl, sym, ap, ◌∙◌, inl, inr, Bool-cases, some, List, [], ◌∷◌, ◌++◌,
  append-none, map, All, ok, ◌>>=◌, bind-ok, ok-injective, map_err, map_err-ok,
}
use mathlib.Core.List.{Memᴰ}
use xilinx_unittests.Names.{Chars}
use xilinx_unittests.Crosscheck.{View, is_filled}
use xilinx_unittests.Crosscheck.Findings.{Entry, view_at}
use xilinx_unittests.Crosscheck.Points.{Point, Found, sort_with}
use xilinx_unittests.Crosscheck.Classify.{failure_of, classify}
use xilinx_unittests.Crosscheck.Classify.Runs.{map-none}
use xilinx_unittests.Crosscheck.Classify.Members.{mem-sort_with}
use xilinx_unittests.Crosscheck.Classify.Silent.{classify-Silent}
use xilinx_unittests.Crosscheck.Report.{Report, Verdict, verdict, unlisted, result_issues}
use xilinx_unittests.Crosscheck.Accounts.{
  TestIssue, view_lt, issues_over, provenance_issues, evidence_issues, golden_cfgs, absent_at,
}
use xilinx_unittests.Crosscheck.Check.{
  gaps_over, result_issues_at, Added, stale_source, classified_source, source_from, check_source,
  with_added, check,
}
use xilinx_unittests.Crosscheck.Check.Stamps.{
  issues_over-none, is_clean_stamp→≡, one_tree_of, provenance_issues-none,
}
use xilinx_unittests.Crosscheck.Check.Quiet.{
  gaps_over-none, gap_at-HasCompanion, absent_at-ListsGolden, result_issues-none, Agreeing,
}

module _ (stem : Chars → Chars) (t : Chars) (es : List Entry) where
  classified-Agreeing :
      (views : List View) (f : Found) (gaps : List TestIssue)
      → provenance_issues views ≡ []
      → classify stem t views es ≡ ok f
      → gaps_over views (sort_with view_lt views) ≡ ok gaps
      → f.findings ≡ []
      → (classified_source views f gaps).issues ≡ []
      → Agreeing views
  classified-Agreeing views f gaps clean h g e i =
      let in_order = sort_with view_lt views in
      let golden = golden_cfgs (view_at "rtl" "python" views) in
      let odd_ones = map TestIssue.odd f.issues in
      let evidence = evidence_issues views f.pairs in
      let absent = issues_over (absent_at golden) in_order in
      let results = issues_over (result_issues_at f.findings true (some views)) in_order in
      let (no_odd, i1) = (append-none odd_ones (evidence ++ (gaps ++ (absent ++ results)))).0 i in
      let (no_evidence, i2) = (append-none evidence (gaps ++ (absent ++ results))).0 i1 in
      let (no_gap, i3) = (append-none gaps (absent ++ results)).0 i2 in
      let (no_absent, no_result) = (append-none absent results).0 i3 in
      let (stamped, one_tree) = provenance_issues-none views clean in
      let mem = λ (v : View) (m : Memᴰ v views). mem-sort_with view_lt v views m in
      record {
        clean = λ v m s. is_clean_stamp→≡ v (stamped v m s);
        one_tree = one_tree_of views stamped one_tree;
        silent = classify-Silent stem t views es f h e (map-none TestIssue.odd f.issues no_odd);
        confirmed = λ v m r p.
            gap_at-HasCompanion views v (gaps_over-none views v in_order gaps g no_gap (mem v m)) r
              p;
        listed = λ v m.
            absent_at-ListsGolden views v
              (issues_over-none (absent_at golden) v in_order no_absent (mem v m));
        no_error = λ v m.
            let none_of =
              issues_over-none (result_issues_at f.findings true (some views)) v in_order no_result
                (mem v m) in
            result_issues-none v views (
              ap (λ fs. result_issues v fs true (some views)) (sym e)
              ∙ map-none (TestIssue.of_result v.flow v.runner)
                  (result_issues v f.findings true (some views)) none_of);
      }

  stale-issue :
      (views : List View) (s : TestIssue) (stale : List TestIssue) (a : Added)
      → stale_source views (s ∷ stale) ≡ a
      → a.issues ≡ []
      → ⊥
  stale-issue views s stale a h i = cc (ap (λ x. x.issues) h ∙ i)

  made-Agreeing :
      (views : List View) (f : Found) (gaps : List TestIssue) (a : Added)
      → provenance_issues views ≡ []
      → classify stem t views es ≡ ok f
      → map_err failure_of (gaps_over views (sort_with view_lt views)) ≡ ok gaps
      → classified_source views f gaps ≡ a
      → a.findings ≡ []
      → a.issues ≡ []
      → Agreeing views
  made-Agreeing views f gaps a p h g made e i =
      classified-Agreeing views f gaps p h
        (map_err-ok failure_of (gaps_over views (sort_with view_lt views)) gaps g)
        (ap (λ x. x.findings) made ∙ e) (ap (λ x. x.issues) made ∙ i)

  source_from-stale :
      (views : List View) (s : TestIssue) (stale : List TestIssue) (a : Added)
      → source_from stem t es views (s ∷ stale) ≡ ok a
      → stale_source views (s ∷ stale) ≡ a
  unfolding source_from
  source_from-stale views s stale a h = ok-injective (stale_source views (s ∷ stale)) a h

  source_from-clean :
      (views : List View) (a : Added)
      → source_from stem t es views [] ≡ ok a
      → (f : Found) × (gaps : List TestIssue) × (classify stem t views es ≡ ok f)
        × (map_err failure_of (gaps_over views (sort_with view_lt views)) ≡ ok gaps)
        × (classified_source views f gaps ≡ a)
  unfolding source_from
  source_from-clean views a h =
      let gaps_of = map_err failure_of (gaps_over views (sort_with view_lt views)) in
      let (f, hf, h1) =
        bind-ok (classify stem t views es) (λ f. gaps_of >>= λ g. ok (classified_source views f g))
          h in
      let (gaps, hg, ha) = bind-ok gaps_of (λ g. ok (classified_source views f g)) h1 in
      (f, gaps, hf, hg, ok-injective (classified_source views f gaps) a ha)

  source_from-Agreeing :
      (views : List View) (stale : List TestIssue) (a : Added)
      → provenance_issues views ≡ stale
      → source_from stem t es views stale ≡ ok a
      → a.findings ≡ []
      → a.issues ≡ []
      → Agreeing views
  source_from-Agreeing views (s ∷ stale) a p h e i =
      absurd (stale-issue views s stale a (source_from-stale views s stale a h) i)
  source_from-Agreeing views [] a p h e i =
      let (f, gaps, hf, hg, made) = source_from-clean views a h in
      made-Agreeing views f gaps a p hf hg made e i

  check_source-Agreeing :
      (views : List View) (a : Added)
      → check_source stem t es views ≡ ok a
      → a.findings ≡ []
      → a.issues ≡ []
      → Agreeing views
  unfolding check_source
  check_source-Agreeing views a h e i =
      source_from-Agreeing views (provenance_issues views) a refl h e i

  check-quiet :
      (sources : List (List View)) (r : Report Point TestIssue)
      → check stem t es sources ≡ ok r
      → r.findings ≡ []
      → r.issues ≡ []
      → All Agreeing sources
  unfolding check
  check-quiet [] r h e i = tt
  check-quiet (views ∷ sources) r h e i =
      let (here, hh, h1) = bind-ok (check_source stem t es views) _ h in
      let (later, hl, hr) = bind-ok (check stem t es sources) _ h1 in
      let made : with_added here later ≡ r = ok-injective _ _ hr in
      let (e0, e1) = (append-none here.findings later.findings).0 (ap (λ x. x.findings) made ∙ e) in
      let (i0, i1) = (append-none here.issues later.issues).0 (ap (λ x. x.issues) made ∙ i) in
      (check_source-Agreeing views here hh e0 i0, check-quiet sources later hl e1 i1)

filled-none : {A : Type 0} (xs : List A) → is_filled xs ≡ false → xs ≡ []
filled-none [] h = refl
filled-none (x ∷ xs) h = cc h

-- The verdict is `agree` only where there is neither a finding nor an issue.
verdict-quiet :
    {P I : Type 0} (r : Report P I)
    → verdict r ≡ Verdict.agree
    → (r.findings ≡ []) × (r.issues ≡ [])
unfolding verdict
verdict-quiet r h = elim (Bool-cases (is_filled (unlisted r.findings))) [
  | inl q ↦ cc (rw q at h)
  | inr q ↦ elim (Bool-cases (is_filled r.issues)) [
    | inl k ↦ cc (rw (q, k) at h)
    | inr k ↦ elim (Bool-cases (is_filled r.findings)) [
      | inl f ↦ cc (rw (q, k, f) at h)
      | inr f ↦ (filled-none r.findings f, filled-none r.issues k)
    ]
  ]
]

-- Where the check of a test gives a report, with the verdict `agree`, the results of every model source agree:
-- those with a stamp were measured at one clean tree, every two that have to agree do, a pass of Verilator is
-- confirmed by its companion, which is there and ran, every result that has configurations, but of a golden
-- model, has those that the golden model ran, where its own result passed or failed, and no result failed and
-- none, nor a configuration of one, ended in an error.
pub check-Agreeing :
    (stem : Chars → Chars) (t : Chars) (es : List Entry) (sources : List (List View))
    (r : Report Point TestIssue)
    → check stem t es sources ≡ ok r
    → verdict r ≡ Verdict.agree
    → All Agreeing sources
check-Agreeing stem t es sources r h v =
    let (no_finding, no_issue) = verdict-quiet r v in
    check-quiet stem t es sources r h no_finding no_issue
