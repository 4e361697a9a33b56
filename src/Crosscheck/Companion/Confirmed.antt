-- ===== src/Crosscheck/Companion/Confirmed.antt =====
-- What confirms a pass of Verilator, and that the question always has an answer.
use xilinx_unittests.Prelude.{
  Bool, true, false, ◌&&◌, if◌then◌else◌, ◌≡◌, refl, ◌⊎◌, inl, inr, Bool-cases, arith, Option, none,
  some, List, [], ◌∷◌, Result, ok, bind-ok, bind-intro,
}
use xilinx_unittests.Xtr.{Trace}
use xilinx_unittests.Xtr.Diff.{diff}
use xilinx_unittests.Crosscheck.{
  Status, View, has_run, has_trace, is_filled, is_present, reject_cfgs, rejection_diff, Assertion,
  Pair, pair, pair_of, common_cfgs, ran, given,
}
use xilinx_unittests.Crosscheck.Companion.{
  Gap, is_pass, differs, run_gap, is_missing, companion_gap,
}

-- Two results were measured at one clean tree.
pub record AtOneTree (v w : View) : Type 0 where
  pub clean : (v.dirty ≡ some false) × (w.dirty ≡ some false)
  pub tree : v.tree_hash ≡ w.tree_hash
  pub head : v.head ≡ w.head

abbrev pub AtOneTreeIf : Option View → View → Type 0
AtOneTreeIf none w = Unit
AtOneTreeIf (some v) w = AtOneTree v w

-- The two runs were compared and do not differ, or the companion passed and there is no other trace to
-- compare.
abbrev pub IsConfirmed : View → Option View → Type 0
IsConfirmed vz none = vz.status ≡ Status.pass
IsConfirmed vz (some iv) =
    ((p : Pair) × (pair iv vz false true true ≡ ok p)
      × (diff true true p.a p.b ≡ [])
      × (rejection_diff iv vz (reject_cfgs (iv ∷ vz ∷ [])) ≡ []))
    ⊎ ((vz.status ≡ Status.pass) × ((has_trace vz && has_trace iv) ≡ false))

is_pass→≡ : (s : Status) → is_pass s ≡ true → s ≡ Status.pass
is_pass→≡ Status.pass h = refl
is_pass→≡ Status.fail h = cc
is_pass→≡ Status.error h = cc
is_pass→≡ Status.skip h = cc
is_pass→≡ Status.not_run h = cc

unless_pass :
    (s : Status)
    → ◌≡◌ {A = Result Assertion (Option Gap)}
        (ok (if is_pass s then none else some Gap.error))
        (ok none)
    → s ≡ Status.pass
unless_pass Status.pass h = refl
unless_pass Status.fail h = cc h
unless_pass Status.error h = cc h
unless_pass Status.skip h = cc h
unless_pass Status.not_run h = cc h

not_filled : {A : Type 0} (xs : List A) → is_filled xs ≡ false → xs ≡ []
not_filled [] h = refl
not_filled (x ∷ xs) h = cc

unless_differs :
    (d : Bool)
    → ◌≡◌ {A = Result Assertion (Option Gap)}
        (ok (if d then some Gap.transform_bug else none))
        (ok none)
    → d ≡ false
unless_differs false h = refl
unless_differs true h = cc h

run_gap-IsConfirmed : (vz : View) (iv : Option View) → run_gap vz iv ≡ ok none → IsConfirmed vz iv
run_gap-IsConfirmed vz none h = unless_pass vz.status h
run_gap-IsConfirmed vz (some iv) h = elim (Bool-cases (has_trace vz && has_trace iv)) [
  | inl q ↦
      let (p, made, rest) =
        bind-ok (pair iv vz false true true)
          (λ p. ok (if differs iv vz p then some Gap.transform_bug else none)) (rw q at h) in
      let alike = unless_differs (differs iv vz p) rest in
      let values : is_filled (diff true true p.a p.b) ≡ false = ground arith in
      let rejections : is_filled (rejection_diff iv vz (reject_cfgs (iv ∷ vz ∷ []))) ≡ false =
        ground arith in
      inl (
        p,
        made,
        not_filled (diff true true p.a p.b) values,
        not_filled (rejection_diff iv vz _) rejections,
      )
  | inr q ↦ inr (unless_pass vz.status (rw q at h), q)
]

pub companion_gap-IsConfirmed :
    (vz : View) (iv : Option View)
    → companion_gap (some vz) iv ≡ ok none
    → (has_run vz.status ≡ true) × IsConfirmed vz iv
unfolding companion_gap
companion_gap-IsConfirmed vz iv h = elim (Bool-cases (is_missing (some vz))) [
  | inl q ↦ cc (rw q at h)
  | inr q ↦ elim (Bool-cases (has_run vz.status)) [
    | inl r ↦ (r, run_gap-IsConfirmed vz iv (rw (q, r) at h))
    | inr r ↦ cc (rw (q, r) at h)
  ]
]

pub has_trace-given : (v : View) → has_trace v ≡ true → (t : Trace) × (given v.trace ≡ ok t)
has_trace-given v h = of_trace v.trace (ground arith)
  where
    of_trace : (t : Option Trace) → is_present t ≡ true → (u : Trace) × (given t ≡ ok u)
    of_trace none h = cc
    of_trace (some t) h = (t, refl)

-- The comparison of a companion always gives an answer: its assertion that both traces are there holds
-- whenever it is reached.
pub companion_gap-Gives : (vz iv : Option View) → (g : Option Gap) × (companion_gap vz iv ≡ ok g)
unfolding companion_gap pair
companion_gap-Gives none iv = (some Gap.missing, refl)
companion_gap-Gives (some vz) iv = elim (Bool-cases (is_missing (some vz))) [
  | inl q ↦ (some Gap.missing, rw q refl)
  | inr q ↦ elim (Bool-cases (has_run vz.status)) [
    | inl r ↦ let (g, h) = gap iv in (g, rw (q, r) h)
    | inr r ↦ (some Gap.error, rw (q, r) refl)
  ]
]
  where
    gap : (iv : Option View) → (g : Option Gap) × (run_gap vz iv ≡ ok g)
    gap none = (if is_pass vz.status then none else some Gap.error, refl)
    gap (some iv) = elim (Bool-cases (has_trace vz && has_trace iv)) [
      | inl q ↦
          let (a, ha) = has_trace-given iv (ground arith) in
          let (b, hb) = has_trace-given vz (ground arith) in
          let p = pair_of false true true (common_cfgs (ran iv) (ran vz)) a b in
          (
            if differs iv vz p then some Gap.transform_bug else none,
            rw q (
                bind-intro (pair iv vz false true true) _ p
                  (bind-intro (given iv.trace) _ a ha (bind-intro (given vz.trace) _ b hb refl))
                  refl),
          )
      | inr q ↦ (if is_pass vz.status then none else some Gap.error, rw q refl)
    ]
