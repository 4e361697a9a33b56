-- ===== src/Crosscheck/Classify/Silent.antt =====
-- What it means that `classify` finds nothing: every two results that it has to compare agree.
use xilinx_unittests.Prelude.{
  String, true, ◌≡◌, refl, sym, ap, ◌∙◌, Option, none, some, List, [], ◌∷◌, append-none, Result, ok,
  bind-ok, ok-injective, map_err, map_err-ok,
}
use mathlib.Core.List.{Memᴰ}
use xilinx_unittests.Names.{Chars}
use xilinx_unittests.Crosscheck.{View, reject_cfgs}
use xilinx_unittests.Crosscheck.Findings.{Finding, Entry, mark}
use xilinx_unittests.Crosscheck.Points.{
  Point, Found, then_found, sort_with, without_repeats, str_lt,
}
use xilinx_unittests.Crosscheck.Classify.Runs.{
  IsQuiet, then_found-IsQuiet, found_in-IsQuiet, SilentFlow, flow_found-SilentFlow,
}
use xilinx_unittests.Crosscheck.Classify.Members.{mem-flows}
use xilinx_unittests.Crosscheck.Sims.{found_in, is_sim, sim_flows, group_of, flow_found}
use xilinx_unittests.Crosscheck.Classify.{
  golden_view, view_found, Failure, Marked, failure_of, mark_all, onto_marked, gathered, classify,
}
use xilinx_unittests.Crosscheck.Classify.Views.{SilentView, view_found-SilentView}

-- Every two results that have to agree do.
pub record Silent (views : List View) : Type 0 where
  pub flows :
      (v : View)
      → Memᴰ v views
      → is_sim v ≡ true
      → SilentFlow (golden_view views) (reject_cfgs views) v.flow (group_of v.flow views)
  pub each : (v : View) → Memᴰ v views → SilentView views v

gathered-Silent :
    (t : Chars) (views : List View) (f : Found) → gathered t views ≡ ok f → IsQuiet f → Silent views
unfolding gathered
gathered-Silent t views f h q =
    let in_flow = λ (flow : String).
      flow_found t (golden_view views) (reject_cfgs views) flow (group_of flow views) in
    let flows = sort_with str_lt (without_repeats (sim_flows views)) in
    let (a, ha, h1) = bind-ok (found_in in_flow flows) _ h in
    let (b, hb, hf) = bind-ok (found_in (view_found t views) views) _ h1 in
    let made : then_found a b ≡ f = ok-injective _ _ hf in
    let (qa, qb) =
      then_found-IsQuiet a b (ap (λ x. x.findings) made ∙ q.0, ap (λ x. x.issues) made ∙ q.1) in
    record {
      flows = λ v m s.
          let (g, hg, qg) = found_in-IsQuiet in_flow v.flow flows a ha qa (mem-flows v views m s) in
          flow_found-SilentFlow t (reject_cfgs views) v.flow (group_of v.flow views)
            (golden_view views) g hg qg;
      each = λ v m.
          let (g, hg, qg) = found_in-IsQuiet (view_found t views) v views b hb qb m in
          view_found-SilentView views t v g hg qg;
    }

mark_all-none :
    (stem : Chars → Chars) (es : List Entry) (fs : List (Finding Point)) (m : Marked)
    → mark_all stem es fs ≡ ok m
    → m.0 ≡ []
    → (fs ≡ []) × (m.1 ≡ [])
unfolding mark_all
mark_all-none stem es [] m h e = (refl, sym (ap (λ x. x.1) (ok-injective _ _ h)))
mark_all-none stem es (f ∷ fs) m h e =
    absurd (marked-filled (mark stem f es) (mark_all stem es fs) h)
  where
    marked-filled :
        (o : Option (Finding Point × List Entry)) (rest : Result Failure Marked)
        → onto_marked f o rest ≡ ok m
        → ⊥
    marked-filled none rest h = cc h
    marked-filled (some x) rest h =
        let (r, hr, hm) = bind-ok rest _ h in cc (ap (λ y. y.0) (ok-injective _ _ hm) ∙ e)

-- Where `classify` gives no finding and no issue: each two simulators of a flow, whose runs have a trace,
-- are without a difference, in values and in rejections; those of the sources follow the golden trace, and
-- none accepts what the golden model rejects; the rewritten Verilog is without a difference to the original,
-- and a flow to the sources; Verilator does not depend on its seeds; and a run on the hardware did not
-- fail its self-test, repeats itself, and shows what the golden trace expects.
pub classify-Silent :
    (stem : Chars → Chars) (t : Chars) (views : List View) (es : List Entry) (f : Found)
    → classify stem t views es ≡ ok f
    → f.findings ≡ []
    → f.issues ≡ []
    → Silent views
unfolding classify
classify-Silent stem t views es f h e i =
    let (g, hg, h1) = bind-ok (map_err failure_of (gathered t views)) _ h in
    let (m, hm, hf) = bind-ok (mark_all stem es g.findings) _ h1 in
    let found = ok-injective _ _ hf in
    let (no_finding, no_more) =
      mark_all-none stem es g.findings m hm (ap (λ x. x.findings) found ∙ e) in
    let issues = (append-none g.issues m.1).0 (ap (λ x. x.issues) found ∙ i) in
    gathered-Silent t views g (map_err-ok failure_of (gathered t views) g hg) (no_finding, issues.0)
