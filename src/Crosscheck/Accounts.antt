-- ===== src/Crosscheck/Accounts.antt =====
-- What `check` of tools/xut/crosscheck.py holds against the results of a model source: `_provenance_issues`, `_evidence` and `_config_coverage`.
use xilinx_unittests.Prelude.{
  ℕ, suc, String, Bool, false, not, ◌&&◌, ◌||◌, if◌then◌else◌, str_eq, ltb, Option, none, some,
  List, [], ◌∷◌, ◌++◌, any, map,
}
use xilinx_unittests.Names.{Chars, chars_eq, member}
use xilinx_unittests.Golden.{codes}
use xilinx_unittests.Xtr.Diff.{chars_lt}
use xilinx_unittests.Crosscheck.{
  Config, View, has_run, has_trace, ran, is_filled, is_present, sorted_cfgs,
}
use xilinx_unittests.Crosscheck.Companion.{Gap}
use xilinx_unittests.Crosscheck.Points.{Oddity, Compared, str_lt, sort_with}
use xilinx_unittests.Crosscheck.Report.{Issue}

-- An issue of a test, with the flow and the runner that it is of.
pub data TestIssue : Type 0 where
  stale_result : String → String → TestIssue
  mixed_trees : TestIssue
  odd : Oddity → TestIssue
  nothing_compared : TestIssue
  compared_with_nothing : String × String → TestIssue
  unconfirmed : String → Gap → TestIssue
  absent_cfg : String → String → Chars → TestIssue
  of_result : String → String → Issue → TestIssue

-- `sorted(views.items())`
abbrev pub view_lt : View → View → Bool
view_lt v w = str_lt v.flow w.flow || str_eq v.flow w.flow && str_lt v.runner w.runner

unfoldable pub issues_over : (View → List TestIssue) → List View → List TestIssue
issues_over f [] = []
issues_over f (v ∷ vs) = f v ++ issues_over f vs

-- `_provenance_issues`
abbrev pub is_clean_stamp : View → Bool
is_clean_stamp v = is_present v.tree_hash && elim v.dirty [ none ↦ false | some d ↦ not d ]

abbrev pub stale_at : View → List TestIssue
stale_at v = if v.has_stamp && not (is_clean_stamp v) then stale_result v.flow v.runner ∷ [] else []

abbrev pub hashes_of : List View → List Chars
hashes_of [] = []
hashes_of (v ∷ vs) =
    let rest = hashes_of vs in
    if v.has_stamp then elim v.tree_hash [ none ↦ rest | some h ↦ h ∷ rest ] else rest

-- `len(by_hash) > 1`
abbrev pub is_mixed : List Chars → Bool
is_mixed [] = false
is_mixed (h ∷ hs) = any (λ g. not (chars_eq g h)) hs

unfoldable pub provenance_issues : List View → List TestIssue
unfolding issues_over sort_with
provenance_issues views =
    issues_over stale_at (sort_with view_lt views)
    ++ (if is_mixed (hashes_of views) then mixed_trees ∷ [] else [])

-- `_evidence`
abbrev pub is_evidence : List Compared → Bool
is_evidence ps = any (λ p. p.evidence) ps

abbrev pub traced_count : List View → ℕ
traced_count [] = 0
traced_count (v ∷ vs) = let rest = traced_count vs in if has_trace v then suc rest else rest

-- A side as `<flow>/<runner>`.
abbrev pub side_text : String × String → Chars
side_text k = codes k.0 ++ b'/' ∷ codes k.1

abbrev pub same_side : String × String → String × String → Bool
same_side a b = chars_eq (side_text a) (side_text b)

abbrev pub has_evidence : List Compared → String × String → Bool
has_evidence ps k = any (λ p. p.evidence && (same_side k p.a || same_side k p.b)) ps

abbrev pub sides_of : List Compared → List (String × String)
sides_of [] = []
sides_of (p ∷ ps) = p.a ∷ p.b ∷ sides_of ps

abbrev pub distinct_sides : List (String × String) → List (String × String)
distinct_sides [] = []
distinct_sides (k ∷ ks) =
    let rest = distinct_sides ks in if any (same_side k) ks then rest else k ∷ rest

abbrev pub side_lt : String × String → String × String → Bool
side_lt a b = chars_lt (side_text a) (side_text b)

unfoldable pub alone_issues : List Compared → List (String × String) → List TestIssue
alone_issues ps [] = []
alone_issues ps (k ∷ ks) =
    let rest = alone_issues ps ks in
    if has_evidence ps k then rest else compared_with_nothing k ∷ rest

unfoldable pub evidence_issues : List View → List Compared → List TestIssue
unfolding alone_issues sort_with
evidence_issues views ps =
    if ltb (traced_count views) 2
    then []
    else if not (is_evidence ps)
    then nothing_compared ∷ []
    else alone_issues ps (sort_with side_lt (distinct_sides (sides_of ps)))

-- `_config_coverage`: the configurations that the golden model ran, and a result does not list.
abbrev pub golden_cfgs : Option View → List Chars
golden_cfgs none = []
golden_cfgs (some v) =
    if has_run v.status then elim (ran v) [ none ↦ [] | some cs ↦ sorted_cfgs cs ] else []

abbrev pub listed_cfgs : List Config → List Chars
listed_cfgs cs = map (λ c. c.cfg) cs

abbrev pub absent_from : View → List Chars → List Chars → List TestIssue
absent_from v known [] = []
absent_from v known (g ∷ gs) =
    let rest = absent_from v known gs in
    if member g known then rest else absent_cfg v.flow v.runner g ∷ rest

abbrev pub absent_at : List Chars → View → List TestIssue
absent_at golden v = elim v.configs [
  | none ↦ []
  | some cs ↦
      if str_eq v.runner "python" || not (is_filled cs)
      then []
      else absent_from v (listed_cfgs cs) golden
]
