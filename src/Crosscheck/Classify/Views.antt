-- ===== src/Crosscheck/Classify/Views.antt =====
-- One view of `classify` against those that it has to agree with, when nothing is found.
use xilinx_unittests.Prelude.{
  String, Bool, true, false, if◌then◌else◌, str_eq, eq_iff, ◌≡◌, ap, subst, ◌∙◌, inl, inr,
  Bool-cases, none, some, List, [], ◌∷◌, ◌++◌, append-none, map, ok, ◌>>=◌, bind-ok, ok-injective,
}
use xilinx_unittests.Names.{Chars}
use xilinx_unittests.Xtr.Compare.{compare}
use xilinx_unittests.Xtr.Diff.{diff}
use xilinx_unittests.Crosscheck.{View, pair, has_trace, rejection_diff, reject_cfgs}
use xilinx_unittests.Crosscheck.Findings.{Class, view_at}
use xilinx_unittests.Crosscheck.Points.{
  Point, Found, nothing_found, then_found, golden_point, x_observable,
}
use xilinx_unittests.Crosscheck.Golden.Silent.{LikeGolden, if_points-none}
use xilinx_unittests.Crosscheck.Classify.Runs.{IsQuiet, then_found-IsQuiet, SameRuns, map-none}
use xilinx_unittests.Crosscheck.Sims.{is_sim, traced}
use xilinx_unittests.Crosscheck.Classify.{
  golden_view, failed_selftest, against, against_of, transformed, across_flows, silicon,
  on_hardware, dependence, hw_finding, view_found,
}

module _ (views : List View) where
  -- One view against those that it has to agree with.
  pub record SilentView (v : View) : Type 0 where
    pub independent : v.runner ≡ "verilator" → v.x_dependence ≡ false
    pub transform :
        (iv : View)
        → v.runner ≡ "iverilog-vz"
        → has_trace v ≡ true
        → traced (view_at v.flow "iverilog" views) ≡ some iv
        → SameRuns true true (reject_cfgs views) iv v
    pub across :
        (ref : View)
        → str_eq v.flow "rtl" ≡ false
        → is_sim v ≡ true
        → traced (view_at "rtl" v.runner views) ≡ some ref
        → SameRuns (x_observable v.runner) (x_observable v.runner) (reject_cfgs views) ref v
    pub hardware :
        v.runner ≡ "hw"
        → (failed_selftest v.selftest ≡ false)
          × (v.repeats_differ ≡ false)
          × ((gold : View)
              → golden_view views ≡ some gold
              → has_trace v ≡ true
              → LikeGolden false gold v)

  module _ (t : Chars) where
    dependence-IsQuiet :
        (v : View)
        → IsQuiet (dependence t views v)
        → v.runner ≡ "verilator"
        → v.x_dependence ≡ false
    dependence-IsQuiet v q e = elim (Bool-cases v.x_dependence) [
      | inr k ↦ k
      | inl k ↦ cc (rw (k, (eq_iff v.runner "verilator").1 e) at q.0)
    ]

    against-SameRuns :
        (c : Class) (rs : List String) (x : Bool) (ref v : View) (f : Found)
        → against t views c rs x (some ref) v ≡ ok f
        → IsQuiet f
        → SameRuns x x (reject_cfgs views) ref v
    unfolding against
    against-SameRuns c rs x ref v f h q =
        let (p, hp, hf) = bind-ok (pair ref v false x x) _ h in
        let made : against_of t views c rs x ref v p ≡ f = ok-injective _ _ hf in
        let found = map Point.of_runs (diff x x p.a p.b) in
        let rejections = map Point.of_rejection (rejection_diff ref v (reject_cfgs views)) in
        let empty =
          if_points-none c t v.flow v.model_source rs (found ++ rejections)
            (ap (λ a. a.findings) made ∙ q.0) in
        let (no_value, no_rej) = (append-none found rejections).0 empty in
        record {
          traces = p;
          paired = hp;
          no_difference = map-none Point.of_runs (diff x x p.a p.b) no_value;
          no_rejection =
              map-none Point.of_rejection (rejection_diff ref v (reject_cfgs views)) no_rej;
        }

    silicon-LikeGolden :
        (gold v : View) (f : Found)
        → silicon t views (some gold) v ≡ ok f
        → IsQuiet f
        → has_trace v ≡ true
        → LikeGolden false gold v
    unfolding silicon
    silicon-LikeGolden gold v f h q has =
        let (p, hp, hf) = bind-ok (pair gold v true true false) _ (rw has at h) in
        let points = map golden_point (compare false p.a p.b) in
        let empty =
          if_points-none Class.silicon_mismatch t v.flow none ("hw" ∷ []) points
            (ap (λ a. a.findings) (ok-injective _ _ hf) ∙ q.0) in
        record {
          traces = p;
          paired = hp;
          no_mismatch = map-none golden_point (compare false p.a p.b) empty;
        }

    abbrev repeated : View → Found
    repeated v =
        if v.repeats_differ
        then hw_finding t views Class.nondeterminism Point.runs_disagree v
        else nothing_found

    repeated-IsQuiet : (v : View) → IsQuiet (repeated v) → v.repeats_differ ≡ false
    repeated-IsQuiet v q = elim (Bool-cases v.repeats_differ) [
      | inr r ↦ r
      | inl r ↦ cc (rw r at q.0)
    ]

    -- A run on the hardware whose self-test did not fail.
    repeats-quiet :
        (v : View) (f : Found)
        → (silicon t views (golden_view views) v >>= λ g. ok (then_found (repeated v) g)) ≡ ok f
        → IsQuiet f
        → (v.repeats_differ ≡ false)
          × ((gold : View)
              → golden_view views ≡ some gold
              → has_trace v ≡ true
              → LikeGolden false gold v)
    repeats-quiet v f h q =
        let (found, hs, hf) = bind-ok (silicon t views (golden_view views) v) _ h in
        let made : then_found (repeated v) found ≡ f = ok-injective _ _ hf in
        let (q0, q1) =
          then_found-IsQuiet (repeated v) found
            (ap (λ a. a.findings) made ∙ q.0, ap (λ a. a.issues) made ∙ q.1) in
        (
          repeated-IsQuiet v q0,
          λ gold g has.
              silicon-LikeGolden gold v found (subst (λ o. silicon t views o v ≡ ok found) g hs) q1
                has,
        )

    on_hardware-quiet :
        (v : View) (f : Found)
        → on_hardware t views v ≡ ok f
        → IsQuiet f
        → v.runner ≡ "hw"
        → (failed_selftest v.selftest ≡ false)
          × (v.repeats_differ ≡ false)
          × ((gold : View)
              → golden_view views ≡ some gold
              → has_trace v ≡ true
              → LikeGolden false gold v)
    on_hardware-quiet v f h q e =
        let called = rw ((eq_iff v.runner "hw").1 e) at h in
        elim (Bool-cases (failed_selftest v.selftest)) [
          | inl k ↦ cc (ap (λ a. a.findings) (ok-injective _ _ (rw k at called)) ∙ q.0)
          | inr k ↦ let (r, g) = repeats-quiet v f (rw k at called) q in (k, r, g)
        ]

    pub view_found-SilentView :
        (v : View) (f : Found) → view_found t views v ≡ ok f → IsQuiet f → SilentView v
    unfolding view_found
    view_found-SilentView v f h q =
        let (a, ha, h1) = bind-ok (transformed t views v) _ h in
        let (b, hb, h2) = bind-ok (across_flows t views v) _ h1 in
        let (c, hc, hf) = bind-ok (on_hardware t views v) _ h2 in
        let made : then_found (dependence t views v) (then_found a (then_found b c)) ≡ f =
          ok-injective _ _ hf in
        let (qd, qr) =
          then_found-IsQuiet (dependence t views v) (then_found a (then_found b c))
            (ap (λ x. x.findings) made ∙ q.0, ap (λ x. x.issues) made ∙ q.1) in
        let (qa, qs) = then_found-IsQuiet a (then_found b c) qr in
        let (qb, qc) = then_found-IsQuiet b c qs in
        record {
          independent = dependence-IsQuiet v qd;
          transform = λ iv e has i.
              against-SameRuns Class.transform_bug ("iverilog" ∷ "iverilog-vz" ∷ []) true iv v a
                (rw ((eq_iff v.runner "iverilog-vz").1 e, has, i) at ha) qa;
          across = λ ref n s r.
              against-SameRuns Class.flow_mismatch (v.runner ∷ []) (x_observable v.runner) ref v b
                (rw (n, s, r) at hb) qb;
          hardware = on_hardware-quiet v c hc qc;
        }
