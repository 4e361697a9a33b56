-- ===== src/Crosscheck/Classify/Runs.antt =====
-- The simulators of one flow, when `classify` finds nothing in them.
use xilinx_unittests.Prelude.{
  String, Bool, false, eq_iff, ◌≡◌, ◌≢◌, refl, sym, ap, subst, ◌∙◌, ◌⊎◌, inl, inr, Option, some,
  List, [], ◌∷◌, ◌++◌, append-none, map, Result, ok, bind-ok, ok-injective,
}
use mathlib.Core.List.{Memᴰ}
use mathlib.Core.List.Memᴰ as MemD
use xilinx_unittests.Names.{Chars}
use xilinx_unittests.Xtr.Diff.{diff}
use xilinx_unittests.Crosscheck.{View, Assertion, Pair, pair, rejection_diff}
use xilinx_unittests.Crosscheck.Findings.{Class}
use xilinx_unittests.Crosscheck.Points.{
  Point, Found, if_points, then_found, x_observable, runner_lt, sort_with,
}
use xilinx_unittests.Crosscheck.Spots.{place_of}
use xilinx_unittests.Crosscheck.Golden.{Against, runners_of}
use xilinx_unittests.Crosscheck.Golden.Silent.{
  FollowGolden, golden_vs_sims-FollowGolden, if_points-none,
}
use xilinx_unittests.Crosscheck.Classify.Members.{mem-combinations, mem-sort_with}
use xilinx_unittests.Crosscheck.Sims.{
  found_in, combinations, source_of, Split, then_split, split_of, splits, golden_in, flow_of,
  flow_found,
}

-- Neither a finding nor an issue.
abbrev pub IsQuiet : Found → Type 0
IsQuiet f = (f.findings ≡ []) × (f.issues ≡ [])

pub then_found-IsQuiet : (f g : Found) → IsQuiet (then_found f g) → IsQuiet f × IsQuiet g
then_found-IsQuiet f g h =
    let (f0, f1) = (append-none f.findings g.findings).0 h.0 in
    let (i0, i1) = (append-none f.issues g.issues).0 h.1 in ((f0, i0), (f1, i1))

pub found_in-IsQuiet :
    {A : Type 0} (f : A → Result Assertion Found) (x : A) (xs : List A) (g : Found)
    → found_in f xs ≡ ok g
    → IsQuiet g
    → Memᴰ x xs
    → (here : Found) × (f x ≡ ok here) × IsQuiet here
unfolding found_in
found_in-IsQuiet f x [] g h q m = absurd (MemD.not-nil m)
found_in-IsQuiet f x (y ∷ ys) g h q m =
    let (here, hh, hr) = bind-ok (f y) _ h in
    let (later, hl, hg) = bind-ok (found_in f ys) _ hr in
    let made : then_found here later ≡ g = ok-injective _ _ hg in
    let (q0, q1) =
      then_found-IsQuiet here later
        (ap (λ a. a.findings) made ∙ q.0, ap (λ a. a.issues) made ∙ q.1) in
    elim (MemD.cases_cons m) [
      | inl e ↦ (here, ap f e ∙ hh, q0)
      | inr t ↦ found_in-IsQuiet f x ys later hl q1 t
    ]

-- Two runs without a difference: in the values of what both ran, and in what rejects.
pub record SameRuns (x y : Bool) (reject : List Chars) (v w : View) : Type 0 where
  pub traces : Pair
  pub paired : pair v w false x y ≡ ok traces
  pub no_difference : diff x y traces.a traces.b ≡ []
  pub no_rejection : rejection_diff v w reject ≡ []

abbrev pub SameSims : List Chars → View → View → Type 0
SameSims reject v w = SameRuns (x_observable v.runner) (x_observable w.runner) reject v w

pub map-none : {A B : Type 0} (f : A → B) (xs : List A) → map f xs ≡ [] → xs ≡ []
map-none f [] h = refl
map-none f (x ∷ xs) h = cc h

-- The two differences that a pair of simulators may have.
abbrev NoDifference : List Chars → View → View → Pair → Type 0
NoDifference reject v w p =
    (diff (x_observable v.runner) (x_observable w.runner) p.a p.b ≡ [])
    × (rejection_diff v w reject ≡ [])

split_of-none :
    (reject : List Chars) (v w : View) (p : Pair)
    → (split_of reject v w p).points ≡ []
    → NoDifference reject v w p
      × ((split_of reject v w p).diverged ≡ [])
      × ((split_of reject v w p).rej_split ≡ [])
split_of-none reject v w p h =
    let found = diff (x_observable v.runner) (x_observable w.runner) p.a p.b in
    let points = map (Point.between v.runner w.runner) found in
    let (no_point, no_other) = (append-none points _).0 h in
    let no_diff = map-none (Point.between v.runner w.runner) found no_point in
    let no_rej =
      map-none (Point.rejection_between v.runner w.runner) (rejection_diff v w reject) no_other in
    ((no_diff, no_rej), ap (map place_of) no_diff, ap (map (λ r. r.cfg)) no_rej)

splits-SameSims :
    (reject : List Chars) (ps : List (View × View)) (s : Split)
    → splits reject ps ≡ ok s
    → s.points ≡ []
    → (s.diverged ≡ []) × (s.rej_split ≡ []) × ((v w : View) → Memᴰ (v, w) ps → SameSims reject v w)
unfolding splits
splits-SameSims reject [] s h p =
    let made = ok-injective _ _ h in
    (
      sym (ap (λ a. a.diverged) made),
      sym (ap (λ a. a.rej_split) made),
      λ v w m. absurd (MemD.not-nil m),
    )
splits-SameSims reject ((a, b) ∷ ps) s h p =
    let (q, hq, hr) =
      bind-ok (pair a b false (x_observable a.runner) (x_observable b.runner)) _ h in
    let (rest, hs, hk) = bind-ok (splits reject ps) _ hr in
    let made = ok-injective _ _ hk in
    let here = split_of reject a b q in
    let (p0, p1) = (append-none here.points rest.points).0 (ap (λ a. a.points) made ∙ p) in
    let (d, j, same) = splits-SameSims reject ps rest hs p1 in
    let (none_here, no_place, no_cfg) = split_of-none reject a b q p0 in
    let joined : then_split here rest ≡ s = made in
    (
      sym (ap (λ x. x.diverged) joined) ∙ (append-none here.diverged rest.diverged).1 (no_place, d),
      sym (ap (λ x. x.rej_split) joined)
          ∙ (append-none here.rej_split rest.rej_split).1 (no_cfg, j),
      λ v w m. elim (MemD.cases_cons m) [
        | inl e ↦
            subst (λ x. SameSims reject x.0 x.1) (sym e)
              (record {
                traces = q;
                paired = hq;
                no_difference = none_here.0;
                no_rejection = none_here.1;
              })
        | inr t ↦ same v w t
      ],
    )

-- Of the group of one flow: each two of its simulators are without a difference, compared in one order or
-- the other, and for the flow of the sources all of them follow the golden trace.
pub record SilentFlow (gold : Option View) (reject : List Chars) (flow : String) (group : List View)
    : Type 0 where
  pub sims :
      (v w : View) → Memᴰ v group → Memᴰ w group → v ≢ w → SameSims reject v w ⊎ SameSims reject w v
  pub golden : (g : View) → gold ≡ some g → flow ≡ "rtl" → FollowGolden g reject group

module _ (t : Chars) (reject : List Chars) (flow : String) (group : List View) where
  golden_in-FollowGolden :
      (g : View) (s : Split) (a : Against)
      → s.diverged ≡ []
      → s.rej_split ≡ []
      → flow ≡ "rtl"
      → golden_in t (some g) flow group reject s ≡ ok a
      → IsQuiet a.found
      → a.sim_points ≡ []
      → FollowGolden g reject group
  golden_in-FollowGolden g s a d j e h q p =
      let called = rw ((eq_iff flow "rtl").1 e, d, j) at h in
      golden_vs_sims-FollowGolden t (source_of group) g group reject a called q.0 q.1 p

  flow_of-IsQuiet :
      (s : Split) (a : Against)
      → IsQuiet (flow_of t flow group s a)
      → (s.points ≡ []) × (a.sim_points ≡ []) × IsQuiet a.found
  flow_of-IsQuiet s a q =
      let points = s.points ++ a.sim_points in
      let mine =
        if_points Class.sim_divergence t flow (source_of group) (runners_of group) points in
      let (f0, f1) = (append-none mine a.found.findings).0 q.0 in
      let empty =
        if_points-none Class.sim_divergence t flow (source_of group) (runners_of group) points f0 in
      let (p0, p1) = (append-none s.points a.sim_points).0 empty in (p0, p1, (f1, q.1))

  pub flow_found-SilentFlow :
      (gold : Option View) (f : Found)
      → flow_found t gold reject flow group ≡ ok f
      → IsQuiet f
      → SilentFlow gold reject flow group
  unfolding flow_found
  flow_found-SilentFlow gold f h q =
      let (s, hs, hr) = bind-ok (splits reject (combinations (sort_with runner_lt group))) _ h in
      let (a, ha, hf) = bind-ok (golden_in t gold flow group reject s) _ hr in
      let made : flow_of t flow group s a ≡ f = ok-injective _ _ hf in
      let (no_point, no_sim_point, quiet) =
        flow_of-IsQuiet s a (ap (λ x. x.findings) made ∙ q.0, ap (λ x. x.issues) made ∙ q.1) in
      let (no_place, no_cfg, same) =
        splits-SameSims reject (combinations (sort_with runner_lt group)) s hs no_point in
      record {
        sims = λ v w m k ne.
            elim (mem-combinations v w (sort_with runner_lt group) ne
              (mem-sort_with runner_lt v group m) (mem-sort_with runner_lt w group k)) [
                | inl p ↦ inl (same v w p)
                | inr p ↦ inr (same w v p)
              ];
        golden = λ g e r.
            golden_in-FollowGolden g s a no_place no_cfg r
              (subst (λ o. golden_in t o flow group reject s ≡ ok a) e ha) quiet no_sim_point;
      }
