-- ===== src/Crosscheck/Sims.antt =====
-- The first loop of `classify` of tools/xut/crosscheck.py: the simulators of each flow against each other, and for the flow of the sources against the golden trace.
use xilinx_unittests.Prelude.{
  String, Bool, false, ◌&&◌, if◌then◌else◌, str_eq, Option, none, some, List, [], ◌∷◌, ◌++◌, map,
  Result, ok, ◌>>=◌,
}
use xilinx_unittests.Names.{Chars}
use xilinx_unittests.Xtr.Diff.{diff}
use xilinx_unittests.Crosscheck.{View, Assertion, Pair, pair, has_trace, rejection_diff}
use xilinx_unittests.Crosscheck.Findings.{Class, has_string}
use xilinx_unittests.Crosscheck.Points.{
  Point, Compared, comparison, Found, nothing_found, then_found, x_observable, runner_lt, sort_with,
  if_points,
}
use xilinx_unittests.Crosscheck.Spots.{Place, place_of}
use xilinx_unittests.Crosscheck.Golden.{runners_of, Against, golden_vs_sims}

-- `for x in xs: ...`, of a body that may raise.
unfoldable pub found_in :
    {A : Type 0} → (A → Result Assertion Found) → List A → Result Assertion Found
found_in f [] = ok nothing_found
found_in f (x ∷ xs) = do here ← f x; later ← found_in f xs; ok (then_found here later)

-- `combinations(views, 2)`
unfoldable pub combinations : List View → List (View × View)
combinations [] = []
combinations (v ∷ vs) = map (λ w. (v, w)) vs ++ combinations vs

-- `SIMULATORS`
abbrev pub is_simulator : String → Bool
is_simulator r = has_string ("xsim" ∷ "iverilog" ∷ "verilator" ∷ []) r

-- `sims`: its flows, and the group of a flow.
abbrev pub is_sim : View → Bool
is_sim v = is_simulator v.runner && has_trace v

abbrev pub sim_flows : List View → List String
sim_flows [] = []
sim_flows (v ∷ vs) = let rest = sim_flows vs in if is_sim v then v.flow ∷ rest else rest

abbrev pub group_of : String → List View → List View
group_of flow [] = []
group_of flow (v ∷ vs) =
    let rest = group_of flow vs in if is_sim v && str_eq v.flow flow then v ∷ rest else rest

abbrev pub source_of : List View → Option String
source_of [] = none
source_of (v ∷ vs) = v.model_source

-- What the loop over the pairs of simulators of a flow gathers.
pub record Split : Type 0 where
  pub diverged : List Place
  pub rej_split : List Chars
  pub points : List Point
  pub pairs : List Compared

abbrev pub split_of : List Chars → View → View → Pair → Split
split_of reject a b p =
    let found = diff (x_observable a.runner) (x_observable b.runner) p.a p.b in
    let rejections = rejection_diff a b reject in
    record {
      diverged = map place_of found;
      rej_split = map (λ r. r.cfg) rejections;
      points =
          map (Point.between a.runner b.runner) found
          ++ map (Point.rejection_between a.runner b.runner) rejections;
      pairs = comparison a b p ∷ [];
    }

abbrev pub no_split : Split
no_split = record { diverged = []; rej_split = []; points = []; pairs = [] }

abbrev pub then_split : Split → Split → Split
then_split s t = record {
  diverged = s.diverged ++ t.diverged;
  rej_split = s.rej_split ++ t.rej_split;
  points = s.points ++ t.points;
  pairs = s.pairs ++ t.pairs;
}

unfoldable pub splits : List Chars → List (View × View) → Result Assertion Split
unfolding pair diff rejection_diff
splits reject [] = ok no_split
splits reject ((a, b) ∷ ps) = do
  p ← pair a b false (x_observable a.runner) (x_observable b.runner)
  rest ← splits reject ps
  ok (then_split (split_of reject a b p) rest)

-- `v` where `_has_trace(v)`.
abbrev pub traced : Option View → Option View
traced none = none
traced (some v) = if has_trace v then some v else none

abbrev pub no_points : Against
no_points = record { found = nothing_found; sim_points = [] }

abbrev pub golden_in :
    Chars → Option View → String → List View → List Chars → Split → Result Assertion Against
golden_in test_id none flow group reject s = ok no_points
golden_in test_id (some gold) flow group reject s =
    if str_eq flow "rtl"
    then golden_vs_sims test_id (source_of group) gold group s.diverged reject s.rej_split
    else ok no_points

-- The body of the loop over the flows.
abbrev pub flow_of : Chars → String → List View → Split → Against → Found
flow_of test_id flow group s g =
    then_found
      (record {
        findings =
            if_points Class.sim_divergence test_id flow (source_of group) (runners_of group)
              (s.points ++ g.sim_points);
        issues = [];
        pairs = s.pairs;
      })
      g.found

unfoldable pub flow_found :
    Chars → Option View → List Chars → String → List View → Result Assertion Found
unfolding splits golden_vs_sims sort_with combinations
flow_found test_id gold reject flow group = do
  s ← splits reject (combinations (sort_with runner_lt group))
  g ← golden_in test_id gold flow group reject s
  ok (flow_of test_id flow group s g)
