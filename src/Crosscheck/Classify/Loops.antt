-- ===== src/Crosscheck/Classify/Loops.antt =====
-- The loops of `classify` over the simulators give what they gather, and their findings are of the test.
use xilinx_unittests.Prelude.{
  String, Bool, true, false, ◌≡◌, refl, Option, List, [], ◌∷◌, All, All-append, Result, Gives,
  Gives-bind,
}
use mathlib.Core.List.{Memᴰ}
use mathlib.Core.List.Memᴰ as MemD
use xilinx_unittests.Names.{Chars}
use xilinx_unittests.Xtr.{keys}
use xilinx_unittests.Xtr.Compare.{compare}
use xilinx_unittests.Crosscheck.{View, Assertion, pair, has_trace}
use xilinx_unittests.Crosscheck.Companion.Confirmed.{has_trace-given}
use xilinx_unittests.Crosscheck.Findings.{Class, Finding}
use xilinx_unittests.Crosscheck.Points.{Point, Compared, Found, then_found, if_points, x_observable}
use xilinx_unittests.Crosscheck.Spots.{Place, Spot, put_spots, spots_onto}
use xilinx_unittests.Crosscheck.Golden.{Tally, tally_of, against_of, golden_vs_sims}
use xilinx_unittests.Crosscheck.Sims.{found_in, splits}

abbrev pub Any : {A : Type 0} → A → Type 0
Any a = Unit

-- The findings are of the test.
abbrev pub AreOf : Chars → List (Finding Point) → Type 0
AreOf t fs = All (λ f. f.test_id ≡ t) fs

abbrev pub IsOf : Chars → Found → Type 0
IsOf t f = AreOf t f.findings

pub pair-Gives :
    (v w : View) (expected x y : Bool)
    → has_trace v ≡ true
    → has_trace w ≡ true
    → Gives Any (pair v w expected x y)
unfolding pair
pair-Gives v w expected x y h k =
    let (a, ha) = has_trace-given v h in let (b, hb) = has_trace-given w k in rw (ha, hb) tt

pub if_points-AreOf :
    (c : Class) (t : Chars) (flow : String) (ms : Option String) (rs : List String)
    (ps : List Point)
    → AreOf t (if_points c t flow ms rs ps)
if_points-AreOf c t flow ms rs [] = tt
if_points-AreOf c t flow ms rs (p ∷ ps) = (refl, tt)

pub then_found-IsOf : (t : Chars) (a b : Found) → IsOf t a → IsOf t b → IsOf t (then_found a b)
then_found-IsOf t a b p q = All-append (λ g. g.test_id ≡ t) a.findings b.findings p q

pub found_in-Gives :
    {A : Type 0} (t : Chars) (f : A → Result Assertion Found) (xs : List A)
    → ((x : A) → Memᴰ x xs → Gives (IsOf t) (f x))
    → Gives (IsOf t) (found_in f xs)
unfolding found_in
found_in-Gives t f [] h = tt
found_in-Gives t f (x ∷ xs) h = Gives-bind (IsOf t) (IsOf t) (f x) _ (h x (MemD.head refl)) (λ a p.
    Gives-bind (IsOf t) (IsOf t) (found_in f xs) _
      (found_in-Gives t f xs (λ y m. h y (MemD.tail m))) (λ b q. then_found-IsOf t a b p q))

abbrev pub Traced : List View → Type 0
Traced vs = All (λ v. has_trace v ≡ true) vs

spots_onto-Gives :
    (gold : View) (vs : List View) (ss : List Spot)
    → has_trace gold ≡ true
    → Traced vs
    → Gives Any (spots_onto gold ss vs)
unfolding spots_onto
spots_onto-Gives gold [] ss h k = tt
spots_onto-Gives gold (v ∷ vs) ss h k =
    Gives-bind Any Any (pair gold v true true (x_observable v.runner)) _
      (pair-Gives gold v true true (x_observable v.runner) h k.0)
      (λ p u.
        Gives-bind Any Any
          (spots_onto gold (put_spots v.runner (compare (x_observable v.runner) p.a p.b) ss) vs) _
          (spots_onto-Gives gold vs
            (put_spots v.runner (compare (x_observable v.runner) p.a p.b) ss) h k.1)
          (λ r w. tt))

against_of-IsOf :
    (t : Chars) (ms : Option String) (gold : View) (group : List View) (diverged : List Place)
    (reject rej_split : List Chars) (tally : Tally) (pairs : List Compared)
    → IsOf t (against_of t ms gold group diverged reject rej_split tally pairs).found
against_of-IsOf t ms gold group diverged reject rej_split tally pairs =
    All-append (λ g. g.test_id ≡ t)
      (if_points Class.doc_vs_model t "rtl" ms tally.doc_runners tally.doc)
      (if_points Class.doc_gap t "rtl" ms tally.gap_runners tally.gap)
      (if_points-AreOf Class.doc_vs_model t "rtl" ms tally.doc_runners tally.doc)
      (if_points-AreOf Class.doc_gap t "rtl" ms tally.gap_runners tally.gap)

pub golden_vs_sims-Gives :
    (t : Chars) (ms : Option String) (gold : View) (group : List View) (diverged : List Place)
    (reject rej_split : List Chars)
    → has_trace gold ≡ true
    → Traced group
    → Gives (λ a. IsOf t a.found) (golden_vs_sims t ms gold group diverged reject rej_split)
unfolding golden_vs_sims
golden_vs_sims-Gives t ms gold group diverged reject rej_split h k =
    let (trace, ht) = has_trace-given gold h in
    Gives-bind Any (λ a. IsOf t a.found) (spots_onto gold [] group) _
      (spots_onto-Gives gold group [] h k)
      (λ r u. rw ht (
        against_of-IsOf t ms gold group diverged reject rej_split
          (tally_of t ms gold group diverged reject rej_split (keys trace.samples) r.0) r.1))

pub splits-Gives :
    (reject : List Chars) (ps : List (View × View))
    → All (λ p. (has_trace p.0 ≡ true) × (has_trace p.1 ≡ true)) ps
    → Gives Any (splits reject ps)
unfolding splits
splits-Gives reject [] h = tt
splits-Gives reject ((a, b) ∷ ps) h =
    Gives-bind Any Any (pair a b false (x_observable a.runner) (x_observable b.runner)) _
      (pair-Gives a b false (x_observable a.runner) (x_observable b.runner) h.0.0 h.0.1)
      (λ p u. Gives-bind Any Any (splits reject ps) _ (splits-Gives reject ps h.1) (λ s w. tt))
