-- ===== src/Crosscheck/Golden.antt =====
-- `_golden_vs_sims` of tools/xut/crosscheck.py: the golden trace against every simulator.
pub mod Rejections
pub mod Silent
use xilinx_unittests.Prelude.{
  String, Bool, true, false, not, ◌&&◌, ◌==◌, if◌then◌else◌, Option, none, some, List, [], ◌∷◌,
  ◌++◌, all, map, Result, ok, ◌>>=◌,
}
use xilinx_unittests.Names.{Chars, chars_eq}
use xilinx_unittests.Xtr.{Dict, keys, lookup}
use xilinx_unittests.Xtr.Compare.{Mismatch}
use xilinx_unittests.Golden.{codes}
use xilinx_unittests.Crosscheck.{
  View, Assertion, is_present, outcomes, both, minus, sorted_cfgs, given,
}
use xilinx_unittests.Crosscheck.Findings.{Class, has_string}
use xilinx_unittests.Crosscheck.Points.{
  Point, Oddity, Compared, Found, str_lt, sort_with, if_points, prov_of, golden_point, observes,
}
use xilinx_unittests.Crosscheck.Spots.{
  kind_name, Place, has_place, Spot, runs_of, spots_onto, spot_lt,
}

-- What the loop appends to, `sim_points` and `issues` with it.
pub record Tally : Type 0 where
  pub sim_points : List Point
  pub issues : List Oddity
  pub doc : List Point
  pub gap : List Point
  pub doc_runners : List String
  pub gap_runners : List String

abbrev pub no_tally : Tally
no_tally = record {
  sim_points = [];
  issues = [];
  doc = [];
  gap = [];
  doc_runners = [];
  gap_runners = [];
}

abbrev pub then_tally : Tally → Tally → Tally
then_tally t u = record {
  sim_points = t.sim_points ++ u.sim_points;
  issues = t.issues ++ u.issues;
  doc = t.doc ++ u.doc;
  gap = t.gap ++ u.gap;
  doc_runners = t.doc_runners ++ u.doc_runners;
  gap_runners = t.gap_runners ++ u.gap_runners;
}

abbrev pub runners_of : List View → List String
runners_of vs = map (λ v. v.runner) vs

abbrev pub observers : Mismatch → List View → List String
observers m [] = []
observers m (v ∷ vs) = let rest = observers m vs in if observes m v then v.runner ∷ rest else rest

abbrev pub same_set : List String → List String → Bool
same_set rs ss = all (has_string ss) rs && all (has_string rs) ss

abbrev pub only_points : List (String × Mismatch) → List Point
only_points [] = []
only_points ((r, m) ∷ rs) = Point.only_of r m (prov_of m) ∷ only_points rs

abbrev pub run_lt : String × Mismatch → String × Mismatch → Bool
run_lt a b = str_lt a.0 b.0

abbrev pub has_prefix : Chars → Chars → Bool
has_prefix [] s = true
has_prefix (c ∷ t) [] = false
has_prefix (c ∷ t) (d ∷ s) = c == d && has_prefix t s

-- `_bit_prov(m) or ""`
abbrev pub prov_text : Mismatch → Chars
prov_text m = elim (prov_of m) [ none ↦ [] | some t ↦ t ]

abbrev pub is_of_bit : Mismatch → Bool
is_of_bit m = chars_eq (kind_name m.kind) (codes "value") && is_present m.bit

module _ (ms : Option String) (group : List View) (diverged : List Place) where
  -- The body of the loop at a spot that is not in `diverged`.
  abbrev pub judge : Spot → Tally
  judge s =
      let m = s.first in
      if not (same_set (map (λ r. r.0) (runs_of s)) (observers m group))
      then record no_tally { sim_points = only_points (sort_with run_lt (runs_of s)) }
      else if not (is_of_bit m)
      then record no_tally {
        issues = Oddity.structural ms (sort_with str_lt (runners_of group)) m ∷ [];
      }
      else if has_prefix (codes "doc:") (prov_text m)
      then record no_tally { doc = golden_point m ∷ []; doc_runners = observers m group }
      else if has_prefix (codes "inferred:") (prov_text m)
      then record no_tally { gap = golden_point m ∷ []; gap_runners = observers m group }
      else record no_tally { issues = Oddity.unknown_prov ms (prov_text m) m ∷ [] }

  unfoldable pub judge_all : List Spot → Tally
  unfolding sort_with
  judge_all [] = no_tally
  judge_all (s ∷ ss) =
      let rest = judge_all ss in
      if has_place diverged s.place then rest else then_tally (judge s) rest

-- The rejections: of the configurations that the golden model rejects, those that a simulator accepts.
abbrev pub rejecting : Dict Bool → List Chars
rejecting [] = []
rejecting ((c, true) ∷ d) = c ∷ rejecting d
rejecting ((c, false) ∷ d) = rejecting d

abbrev pub is_accepted : Option Bool → Bool
is_accepted (some false) = true
is_accepted _ = false

abbrev pub accepting : Chars → List View → List String
accepting c [] = []
accepting c (v ∷ vs) =
    let rest = accepting c vs in
    if is_accepted (lookup c (outcomes v)) then v.runner ∷ rest else rest

abbrev pub accepted_at : Chars → List String → Tally
accepted_at c [] = no_tally
accepted_at c (r ∷ rs) = record no_tally {
  gap = Point.accepted_by c (r ∷ rs) ∷ [];
  gap_runners = r ∷ rs;
}

unfoldable pub rejection_tally : List View → List Chars → Tally
unfolding sort_with
rejection_tally group [] = no_tally
rejection_tally group (c ∷ cs) =
    then_tally (accepted_at c (sort_with str_lt (accepting c group))) (rejection_tally group cs)

-- The findings, and the points of the simulators.
pub record Against : Type 0 where
  pub found : Found
  pub sim_points : List Point

module _ (test_id : Chars) (ms : Option String) (gold : View) (group : List View)
    (diverged : List Place) (reject rej_split : List Chars) where
  abbrev pub tally_of : List Chars → List Spot → Tally
  tally_of labels ss =
      let golden_rejects = both (rejecting (outcomes gold)) reject in
      then_tally (judge_all ms group diverged (sort_with (spot_lt labels) ss))
        (rejection_tally group (sorted_cfgs (minus golden_rejects rej_split)))

  abbrev pub against_of : Tally → List Compared → Against
  against_of t pairs = record {
    found = record {
      findings =
          if_points Class.doc_vs_model test_id "rtl" ms t.doc_runners t.doc
          ++ if_points Class.doc_gap test_id "rtl" ms t.gap_runners t.gap;
      issues = t.issues;
      pairs = pairs;
    };
    sim_points = t.sim_points;
  }

  -- `_golden_vs_sims`
  unfoldable pub golden_vs_sims : Result Assertion Against
  unfolding spots_onto judge_all rejection_tally sort_with
  golden_vs_sims = do
    ss ← spots_onto gold [] group
    t ← given gold.trace
    ok (against_of (tally_of (keys t.samples) ss.0) ss.1)
