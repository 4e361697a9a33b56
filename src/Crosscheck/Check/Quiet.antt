-- ===== src/Crosscheck/Check/Quiet.antt =====
-- The parts of a model source's report, when they are empty.
use xilinx_unittests.Prelude.{
  String, true, false, str_eq, eq_iff, ◌≡◌, ◌≢◌, refl, sym, ap, subst, ◌∙◌, inl, inr, Bool-cases,
  Option, none, some, List, [], ◌∷◌, append-none, ok, bind-ok, ok-injective,
}
use mathlib.Core.List.{Memᴰ}
use mathlib.Core.List.Memᴰ as MemD
use xilinx_unittests.Names.{Chars, chars_eq, chars_eq_refl, chars_eq→≡, member}
use xilinx_unittests.Crosscheck.{Status, Config, View, has_run, ran_cfgs, is_filled, sorted_cfgs}
use xilinx_unittests.Crosscheck.Golden.Rejections.{member-sorted_cfgs}
use xilinx_unittests.Crosscheck.Companion.Confirmed.{IsConfirmed, companion_gap-IsConfirmed}
use xilinx_unittests.Crosscheck.Report.Issues.{NoConfigError, result_issues_iff}
use xilinx_unittests.Crosscheck.Companion.{Gap, companion_gap}
use xilinx_unittests.Crosscheck.Findings.{view_at}
use xilinx_unittests.Crosscheck.Points.{Point}
use xilinx_unittests.Crosscheck.Classify.Silent.{Silent}
use xilinx_unittests.Crosscheck.Report.{result_issues}
use xilinx_unittests.Crosscheck.Accounts.{
  TestIssue, golden_cfgs, listed_cfgs, absent_from, absent_at,
}
use xilinx_unittests.Crosscheck.Check.{gap_issue, gap_at, gaps_over}

pub gaps_over-none :
    (views : List View) (v : View) (vs : List View) (issues : List TestIssue)
    → gaps_over views vs ≡ ok issues
    → issues ≡ []
    → Memᴰ v vs
    → gap_at views v ≡ ok none
unfolding gaps_over
gaps_over-none views v [] issues h e m = absurd (MemD.not-nil m)
gaps_over-none views v (w ∷ vs) issues h e m =
    let (gap, hg, h1) = bind-ok (gap_at views w) _ h in
    let (later, hl, hi) = bind-ok (gaps_over views vs) _ h1 in
    let (here, rest) = (append-none (gap_issue w gap) later).0 (ok-injective _ _ hi ∙ e) in
    elim (MemD.cases_cons m) [
      | inl same ↦ ap (gap_at views) same ∙ hg ∙ ap ok (no_gap gap here)
      | inr t ↦ gaps_over-none views v vs later hl rest t
    ]
  where
    no_gap : (g : Option Gap) → gap_issue w g ≡ [] → g ≡ none
    no_gap none k = refl
    no_gap (some g) k = cc k

-- A pass of Verilator is confirmed by its companion.
abbrev pub HasCompanion : List View → View → Type 0
HasCompanion views v =
    (z : View) × (view_at v.flow "iverilog-vz" views ≡ some z)
    × (has_run z.status ≡ true)
    × IsConfirmed z (view_at v.flow "iverilog" views)

-- Every configuration that the golden model ran is one of a result that has configurations.
abbrev pub ListsGolden : List View → View → Type 0
ListsGolden views v =
    (g : View) (gs cs : List Config) (c : Config)
    → view_at "rtl" "python" views ≡ some g
    → has_run g.status ≡ true
    → g.configs ≡ some gs
    → v.runner ≢ "python"
    → v.configs ≡ some cs
    → is_filled cs ≡ true
    → Memᴰ c gs
    → has_run c.status ≡ true
    → (k : Config) × Memᴰ k cs × (k.cfg ≡ c.cfg)

-- The results of one model source agree: those with a stamp were measured at one clean tree; every two that
-- have to agree do; a pass of Verilator is confirmed; every result that has configurations has those that the
-- golden model ran; and neither a result nor a configuration of one ended in an error, and no result failed.
pub record Agreeing (views : List View) : Type 0 where
  pub clean :
      (v : View)
      → Memᴰ v views
      → v.has_stamp ≡ true
      → (v.dirty ≡ some false) × ((h : Chars) × (v.tree_hash ≡ some h))
  pub one_tree :
      (v w : View)
      → Memᴰ v views
      → Memᴰ w views
      → v.has_stamp ≡ true
      → w.has_stamp ≡ true
      → v.tree_hash ≡ w.tree_hash
  pub silent : Silent views
  pub confirmed :
      (v : View)
      → Memᴰ v views
      → v.runner ≡ "verilator"
      → v.status ≡ Status.pass
      → HasCompanion views v
  pub listed : (v : View) → Memᴰ v views → ListsGolden views v
  pub no_error :
      (v : View)
      → Memᴰ v views
      → NoConfigError v.configs × (v.status ≢ Status.error) × (v.status ≢ Status.fail)

no_gap_without : (iv : Option View) {A : Type 0} → companion_gap none iv ≡ ok none → A
unfolding companion_gap
no_gap_without iv h = cc h

-- A pass of Verilator without a gap.
pub gap_at-HasCompanion :
    (views : List View) (v : View)
    → gap_at views v ≡ ok none
    → v.runner ≡ "verilator"
    → v.status ≡ Status.pass
    → HasCompanion views v
gap_at-HasCompanion views v h r p =
    of_companion (view_at v.flow "iverilog-vz" views)
      (rw ((eq_iff v.runner "verilator").1 r, p) at h)
  where
    of_companion :
        (z : Option View)
        → companion_gap z (view_at v.flow "iverilog" views) ≡ ok none
        → (w : View) × (z ≡ some w)
          × (has_run w.status ≡ true)
          × IsConfirmed w (view_at v.flow "iverilog" views)
    of_companion none k = no_gap_without (view_at v.flow "iverilog" views) k
    of_companion (some w) k =
        let (ran, confirmed) = companion_gap-IsConfirmed w (view_at v.flow "iverilog" views) k in
        (w, refl, ran, confirmed)

member-ran_cfgs :
    (c : Config) (cs : List Config)
    → Memᴰ c cs
    → has_run c.status ≡ true
    → member c.cfg (ran_cfgs cs) ≡ true
member-ran_cfgs c [] m r = absurd (MemD.not-nil m)
member-ran_cfgs c (d ∷ cs) m r = elim (MemD.cases_cons m) [
  | inl e ↦
      subst (λ (x : Config). member c.cfg (ran_cfgs (x ∷ cs)) ≡ true) e
        (rw (r, chars_eq_refl c.cfg) refl)
  | inr t ↦ elim (Bool-cases (has_run d.status)) [
    | inr q ↦ rw q (member-ran_cfgs c cs t r)
    | inl q ↦ rw q (elim (Bool-cases (chars_eq c.cfg d.cfg)) [
      | inl k ↦ rw k refl
      | inr k ↦ rw k (member-ran_cfgs c cs t r)
    ])
  ]
]

listed_of :
    (x : Chars) (cs : List Config)
    → member x (listed_cfgs cs) ≡ true
    → (k : Config) × Memᴰ k cs × (k.cfg ≡ x)
listed_of x [] h = cc h
listed_of x (c ∷ cs) h = elim (Bool-cases (chars_eq x c.cfg)) [
  | inl q ↦ (c, MemD.head refl, sym (chars_eq→≡ x c.cfg q))
  | inr q ↦ let (k, m, e) = listed_of x cs (rw q at h) in (k, MemD.tail m, e)
]

absent_from-none :
    (v : View) (known gs : List Chars) (x : Chars)
    → absent_from v known gs ≡ []
    → member x gs ≡ true
    → member x known ≡ true
absent_from-none v known [] x h m = cc m
absent_from-none v known (g ∷ gs) x h m = elim (Bool-cases (member g known)) [
  | inr q ↦ cc (rw q at h)
  | inl q ↦ elim (Bool-cases (chars_eq x g)) [
    | inl r ↦ rw (chars_eq→≡ x g r) q
    | inr r ↦ absent_from-none v known gs x (rw q at h) (rw r at m)
  ]
]

pub absent_at-ListsGolden :
    (views : List View) (v : View)
    → absent_at (golden_cfgs (view_at "rtl" "python" views)) v ≡ []
    → ListsGolden views v
absent_at-ListsGolden views v h g gs cs c there status run other own filled m r =
    let ran_it = member-sorted_cfgs c.cfg (ran_cfgs gs) (member-ran_cfgs c gs m r) in
    let golden : golden_cfgs (view_at "rtl" "python" views) ≡ sorted_cfgs (ran_cfgs gs) =
      rw (there, status, run) refl in
    let not_python = is_not v.runner "python" other in
    listed_of c.cfg cs (
      absent_from-none v (listed_cfgs cs) (sorted_cfgs (ran_cfgs gs)) c.cfg
        (rw (golden, own, not_python, filled) at h) ran_it)
  where
    is_not : (a b : String) → a ≢ b → str_eq a b ≡ false
    is_not a b k = elim (Bool-cases (str_eq a b)) [
      | inl q ↦ absurd (k ((eq_iff a b).0 q))
      | inr q ↦ q
    ]

pub result_issues-none :
    (v : View) (views : List View)
    → result_issues {P = Point} v [] true (some views) ≡ []
    → NoConfigError v.configs × (v.status ≢ Status.error) × (v.status ≢ Status.fail)
result_issues-none v views h =
    let (configs, error, rest) = (result_issues_iff {P = Point} v [] true (some views)).0 h in
    (
      configs,
      error,
      -- Nothing explains a fail where there is no finding.
      elim rest [
        | inl a ↦ cc a
        | inr (inl a) ↦ a
        | inr (inr (inl a)) ↦ absurd (MemD.not-nil a.1)
        | inr (inr (inr a)) ↦ absurd (MemD.not-nil a.1.5.1)
      ],
    )
