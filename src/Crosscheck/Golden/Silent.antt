-- ===== src/Crosscheck/Golden/Silent.antt =====
-- The golden trace against the simulators, when nothing is found: no comparison with a simulator found
-- anything.
use xilinx_unittests.Prelude.{
  String, Bool, true, false, not, ◌≡◌, ◌∙◌, refl, ap, inl, inr, Bool-cases, Option, List, [], ◌∷◌,
  append-none, map, ok, ok-injective, bind-ok,
}
use mathlib.Core.List.{Memᴰ}
use mathlib.Core.List.Memᴰ as MemD
use xilinx_unittests.Names.{Chars, member}
use xilinx_unittests.Xtr.{keys, lookup}
use xilinx_unittests.Golden.{codes}
use xilinx_unittests.Xtr.Compare.{Mismatch, compare}
use xilinx_unittests.Crosscheck.{View, Pair, pair, given, outcomes, both, minus, sorted_cfgs}
use xilinx_unittests.Crosscheck.Findings.{Class}
use xilinx_unittests.Crosscheck.Points.{Point, Compared, x_observable, sort_with, if_points}
use xilinx_unittests.Crosscheck.Spots.{
  Spot, is_at, put_spot, put_spots, spots_onto, spot_lt, runs_of,
}
use xilinx_unittests.Crosscheck.Golden.{
  Tally, judge, judge_all, observers, same_set, is_of_bit, has_prefix, prov_text, is_accepted,
  only_points, run_lt, rejecting, rejection_tally, tally_of, Against, against_of, golden_vs_sims,
}
use xilinx_unittests.Crosscheck.Golden.Rejections.{
  sort_with-none, IsSilent, then_tally-IsSilent, rejection_tally-none, accepting-none, member-both,
  minus-none, member-sorted_cfgs,
}

put_spot-filled : (r : String) (m : Mismatch) (ss : List Spot) → put_spot r m ss ≡ [] → ⊥
put_spot-filled r m [] h = cc
put_spot-filled r m (s ∷ ss) h = elim (Bool-cases (is_at m s)) [
  | inl q ↦ cc (rw q at h)
  | inr q ↦ cc (rw q at h)
]

-- A spot stays.
put_spots-none :
    (r : String) (ms : List Mismatch) (ss : List Spot)
    → put_spots r ms ss ≡ []
    → (ms ≡ []) × (ss ≡ [])
put_spots-none r [] ss h = (refl, h)
put_spots-none r (m ∷ ms) ss h =
    absurd (put_spot-filled r m ss (put_spots-none r ms (put_spot r m ss) h).1)

-- On what both ran, a simulator shows what the golden trace expects.
pub record LikeGolden (x : Bool) (gold v : View) : Type 0 where
  pub traces : Pair
  pub paired : pair gold v true true x ≡ ok traces
  pub no_mismatch : compare x traces.a traces.b ≡ []

spots_onto-LikeGolden :
    (gold : View) (vs : List View) (ss : List Spot) (r : List Spot × List Compared)
    → spots_onto gold ss vs ≡ ok r
    → r.0 ≡ []
    → (ss ≡ []) × ((v : View) → Memᴰ v vs → LikeGolden (x_observable v.runner) gold v)
unfolding spots_onto
spots_onto-LikeGolden gold [] ss r h e =
    (cc (ok-injective _ _ h, e), λ v m. absurd (MemD.not-nil m))
spots_onto-LikeGolden gold (v ∷ vs) ss r h e =
    let (p, hp, hr) = bind-ok (pair gold v true true (x_observable v.runner)) _ h in
    let (rest, hs, hk) = bind-ok _ _ hr in
    let (here, later) = spots_onto-LikeGolden gold vs _ rest hs (cc (ok-injective _ _ hk, e)) in
    let (found, before) = put_spots-none v.runner _ ss here in
    (
      before,
      λ w m. elim (MemD.cases_cons m) [
        | inl q ↦ rw q (record { traces = p; paired = hp; no_mismatch = found })
        | inr t ↦ later w t
      ],
    )

only_points-none : (rs : List (String × Mismatch)) → only_points rs ≡ [] → rs ≡ []
only_points-none [] h = refl
only_points-none (r ∷ rs) h = cc h

module _ (ms : Option String) (group : List View) where
  -- A spot that no two simulators differ on leaves a trace in the tally.
  judge-leaves : (s : Spot) → IsSilent (judge ms group [] s) → ⊥
  judge-leaves s h =
      elim (Bool-cases (not (same_set (map (λ r. r.0) (runs_of s)) (observers s.first group)))) [
        | inl q ↦ cc (sort_with-none run_lt (runs_of s) (only_points-none _ (rw q at h).0))
        | inr q ↦ elim (Bool-cases (not (is_of_bit s.first))) [
          | inl k ↦ cc (rw (q, k) at h).1
          | inr k ↦ elim (Bool-cases (has_prefix (codes "doc:") (prov_text s.first))) [
            | inl d ↦ cc (rw (q, k, d) at h).2
            | inr d ↦ elim (Bool-cases (has_prefix (codes "inferred:") (prov_text s.first))) [
              | inl i ↦ cc (rw (q, k, d, i) at h).3
              | inr i ↦ cc (rw (q, k, d, i) at h).1
            ]
          ]
        ]
      ]

  judge_all-none : (ss : List Spot) → IsSilent (judge_all ms group [] ss) → ss ≡ []
  unfolding judge_all
  judge_all-none [] h = refl
  judge_all-none (s ∷ ss) h =
      absurd
        (judge-leaves s (then_tally-IsSilent (judge ms group [] s) (judge_all ms group [] ss) h).0)

pub if_points-none :
    (c : Class) (t : Chars) (flow : String) (ms : Option String) (rs : List String)
    (ps : List Point)
    → if_points c t flow ms rs ps ≡ []
    → ps ≡ []
if_points-none c t flow ms rs [] h = refl
if_points-none c t flow ms rs (p ∷ ps) h = cc h

-- No simulator differs from the golden trace, or accepts a configuration that the golden model rejects.
pub record FollowGolden (gold : View) (reject : List Chars) (group : List View) : Type 0 where
  pub like : (v : View) → Memᴰ v group → LikeGolden (x_observable v.runner) gold v
  pub rejects :
      (v : View) (c : Chars)
      → Memᴰ v group
      → member c reject ≡ true
      → member c (rejecting (outcomes gold)) ≡ true
      → is_accepted (lookup c (outcomes v)) ≡ false

module _ (t : Chars) (ms : Option String) (gold : View) (group : List View)
    (reject : List Chars) where
  against_of-IsSilent :
      (tally : Tally) (pairs : List Compared)
      → (against_of t ms gold group [] reject [] tally pairs).found.findings ≡ []
      → tally.issues ≡ []
      → tally.sim_points ≡ []
      → IsSilent tally
  against_of-IsSilent tally pairs f i p =
      let docs = if_points Class.doc_vs_model t "rtl" ms tally.doc_runners tally.doc in
      let gaps = if_points Class.doc_gap t "rtl" ms tally.gap_runners tally.gap in
      let (no_doc, no_gap) = (append-none docs gaps).0 f in
      (
        p,
        i,
        if_points-none Class.doc_vs_model t "rtl" ms tally.doc_runners tally.doc no_doc,
        if_points-none Class.doc_gap t "rtl" ms tally.gap_runners tally.gap no_gap,
      )

  tally_of-FollowGolden :
      (labels : List Chars) (r : List Spot × List Compared)
      → spots_onto gold [] group ≡ ok r
      → IsSilent (tally_of t ms gold group [] reject [] labels r.0)
      → FollowGolden gold reject group
  tally_of-FollowGolden labels r h silent =
      let cs = both (rejecting (outcomes gold)) reject in
      let judged = judge_all ms group [] (sort_with (spot_lt labels) r.0) in
      let (spots, rejections) =
        then_tally-IsSilent judged (rejection_tally group (sorted_cfgs (minus cs []))) silent in
      let none_found = sort_with-none (spot_lt labels) r.0 (judge_all-none ms group _ spots) in
      record {
        like = (spots_onto-LikeGolden gold group [] r h none_found).1;
        rejects = λ v c m k j.
            let among = member-both c (rejecting (outcomes gold)) reject j k in
            let there : member c (sorted_cfgs (minus cs [])) ≡ true =
              rw (minus-none cs) (member-sorted_cfgs c cs among) in
            accepting-none c v group
              (rejection_tally-none group c (sorted_cfgs (minus cs [])) rejections there) m;
      }

  pub golden_vs_sims-FollowGolden :
      (g : Against)
      → golden_vs_sims t ms gold group [] reject [] ≡ ok g
      → g.found.findings ≡ []
      → g.found.issues ≡ []
      → g.sim_points ≡ []
      → FollowGolden gold reject group
  unfolding golden_vs_sims
  golden_vs_sims-FollowGolden g h f i p =
      let (ss, hs, hr) = bind-ok (spots_onto gold [] group) _ h in
      let (trace, ht, hg) = bind-ok (given gold.trace) _ hr in
      let tally = tally_of t ms gold group [] reject [] (keys trace.samples) ss.0 in
      let made : against_of t ms gold group [] reject [] tally ss.1 ≡ g = ok-injective _ _ hg in
      tally_of-FollowGolden (keys trace.samples) ss hs (
        against_of-IsSilent tally ss.1 (ap (λ a. a.found.findings) made ∙ f)
          (ap (λ a. a.found.issues) made ∙ i) (ap (λ a. a.sim_points) made ∙ p))
