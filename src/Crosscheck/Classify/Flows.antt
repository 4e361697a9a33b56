-- ===== src/Crosscheck/Classify/Flows.antt =====
-- What the loops of `classify` run over has a trace, so that the group of a flow gives its findings.
use xilinx_unittests.Prelude.{
  String, Bool, true, ◌&&◌, str_eq, ◌≡◌, inl, inr, Bool-cases, arith, Option, none, some, List, [],
  ◌∷◌, ◌++◌, map, All, All-append, Gives, Gives-bind,
}
use xilinx_unittests.Names.{Chars}
use xilinx_unittests.Crosscheck.{View, has_trace}
use xilinx_unittests.Crosscheck.Findings.{Class}
use xilinx_unittests.Crosscheck.Points.{if_points, insert_with, sort_with, runner_lt}
use xilinx_unittests.Crosscheck.Golden.{runners_of}
use xilinx_unittests.Crosscheck.Sims.{
  combinations, is_sim, group_of, source_of, Split, splits, traced, golden_in, flow_found,
}
use xilinx_unittests.Crosscheck.Classify.Loops.{
  Any, IsOf, if_points-AreOf, Traced, golden_vs_sims-Gives, splits-Gives,
}

-- What the loops run over has a trace.
module _ {A : Type 0} (P : A → Type 0) (lt : A → A → Bool) where
  All-insert_with : (x : A) (ys : List A) → P x → All P ys → All P (insert_with lt x ys)
  unfolding insert_with
  All-insert_with x [] h k = (h, tt)
  All-insert_with x (y ∷ ys) h k = elim (Bool-cases (lt y x)) [
    | inl q ↦ rw q (k.0, All-insert_with x ys h k.1)
    | inr q ↦ rw q (h, k)
  ]

  All-sort_with : (xs : List A) → All P xs → All P (sort_with lt xs)
  unfolding sort_with
  All-sort_with [] h = tt
  All-sort_with (x ∷ xs) h = All-insert_with x (sort_with lt xs) h.0 (All-sort_with xs h.1)

group_of-Traced : (flow : String) (vs : List View) → Traced (group_of flow vs)
group_of-Traced flow [] = tt
group_of-Traced flow (v ∷ vs) = elim (Bool-cases (is_sim v && str_eq v.flow flow)) [
  | inl q ↦ rw q (ground arith, group_of-Traced flow vs)
  | inr q ↦ rw q (group_of-Traced flow vs)
]

abbrev BothTraced : View × View → Type 0
BothTraced p = (has_trace p.0 ≡ true) × (has_trace p.1 ≡ true)

combinations-Traced : (vs : List View) → Traced vs → All BothTraced (combinations vs)
unfolding combinations
combinations-Traced [] h = tt
combinations-Traced (v ∷ vs) h =
    All-append BothTraced (map (λ w. (v, w)) vs) (combinations vs) (with_first vs h.1)
      (combinations-Traced vs h.1)
  where
    with_first : (ws : List View) → Traced ws → All BothTraced (map (λ w. (v, w)) ws)
    with_first [] k = tt
    with_first (w ∷ ws) k = ((h.0, k.0), with_first ws k.1)

abbrev pub IsTraced : Option View → Type 0
IsTraced none = Unit
IsTraced (some v) = has_trace v ≡ true

pub traced-IsTraced : (o : Option View) → IsTraced (traced o)
traced-IsTraced none = tt
traced-IsTraced (some v) = elim (Bool-cases (has_trace v)) [ inl q ↦ rw q q | inr q ↦ rw q tt ]

golden_in-Gives :
    (t : Chars) (gold : Option View) (flow : String) (group : List View) (reject : List Chars)
    (s : Split)
    → IsTraced gold
    → Traced group
    → Gives (λ a. IsOf t a.found) (golden_in t gold flow group reject s)
golden_in-Gives t none flow group reject s h k = tt
golden_in-Gives t (some gold) flow group reject s h k = elim (Bool-cases (str_eq flow "rtl")) [
  | inl q ↦
      rw q (golden_vs_sims-Gives t (source_of group) gold group s.diverged reject s.rej_split h k)
  | inr q ↦ rw q tt
]

pub flow_found-Gives :
    (t : Chars) (gold : Option View) (reject : List Chars) (flow : String) (vs : List View)
    → IsTraced gold
    → Gives (IsOf t) (flow_found t gold reject flow (group_of flow vs))
unfolding flow_found
flow_found-Gives t gold reject flow vs h =
    let group = group_of flow vs in
    let with_trace = group_of-Traced flow vs in
    let pairs = combinations (sort_with runner_lt group) in
    let sorted = All-sort_with (λ v. has_trace v ≡ true) runner_lt group with_trace in
    Gives-bind Any (IsOf t) (splits reject pairs) _
      (splits-Gives reject pairs (combinations-Traced (sort_with runner_lt group) sorted))
      (λ s u.
        Gives-bind (λ a. IsOf t a.found) (IsOf t) (golden_in t gold flow group reject s) _
          (golden_in-Gives t gold flow group reject s h with_trace)
          (λ a k.
            let points = s.points ++ a.sim_points in
            All-append (λ g. g.test_id ≡ t)
              (if_points Class.sim_divergence t flow (source_of group) (runners_of group) points)
              a.found.findings
              (if_points-AreOf Class.sim_divergence t flow (source_of group) (runners_of group)
                points)
              k))
