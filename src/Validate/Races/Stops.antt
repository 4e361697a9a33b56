-- ===== src/Validate/Races/Stops.antt =====
-- `_check_free_stops` of tools/xut/validate.py: a clock that stops is low.
use mathlib.Core.List.{Memᴰ}
use mathlib.Core.List.Memᴰ as MemD
use native.Mathlib.Nat.{add-mul-mod_self_right, div-add-mod', mul-le-mul_right, le-div_iff_mul-le}
use xilinx_unittests.Prelude.{
  append-none, ℕ, zero, suc, ◌+◌, ◌-◌, ◌*◌, ◌/◌, ◌%◌, ◌≤◌, ◌<◌, ltb, ltb→lt, if◌then◌else◌, ◌≡◌,
  sym, subst, ap, ◌∙◌, inl, inr, arith, Bool-cases, some, List, [], ◌∷◌,
}
use xilinx_unittests.Xvec.{Event, Vec}
use xilinx_unittests.Xvec.FreeClocks.{Run, high_ps, free_runs}
use xilinx_unittests.Validate.Races.{
  RaceError, phase_at, restart, restart_errors, stop_errors, runs_errors, check_free_stops,
}

shifted : (p start d : ℕ) → 0 < p → start + d + start * (p - 1) ≡ d + start * p
shifted zero start d h = absurd (omega (arith, h))
shifted (suc p) start d h =
    let less : suc p - 1 ≡ p = omega arith in
    let more : start * suc p ≡ start * p + start = omega arith in rw less (omega (arith, more))

phase_at_lem : (p start d : ℕ) → 0 < p → phase_at p start (start + d) ≡ d % p
phase_at_lem p start d h = ap (λ n. n % p) (shifted p start d h) ∙ add-mul-mod_self_right d start p

-- A rise before the stop is so early that its high phase is over by then.
rise-high : (p high d k : ℕ) → 0 < p → high < d % p → k * p < d → k * p + high < d
rise-high p high d k hp hi lt =
    let whole = div-add-mod' d p in
    let le : k ≤ d / p = (le-div_iff_mul-le hp).1 (omega arith) in
    let mono : k * p ≤ d / p * p = mul-le-mul_right p le in omega arith

-- Nothing is found at the stop of a run: each rise before it has its fall before it.
stop_errors-low :
    (es : List Event) (r : Run) (stop : ℕ)
    → stop_errors es r (some stop) ≡ []
    → 0 < r.clock.period
    → (k : ℕ) → r.start + k * r.clock.period < stop
    → r.start + k * r.clock.period + high_ps r.clock < stop
unfolding stop_errors
stop_errors-low es r stop h hp k lt =
    let p = r.clock.period in
    let d = stop - r.start in
    let pos = phase_at p r.start stop in
    let at_stop : pos ≡ d % p =
      subst (λ s. phase_at p r.start s ≡ d % p) (omega arith) (phase_at_lem p r.start d hp) in
    let low =
      if ltb (high_ps r.clock) pos then [] else RaceError.stop_not_low stop r.clock.name ∷ [] in
    let later = restart_errors r.clock.name (stop + (p - pos)) (restart r.clock.name stop es) in
    let quiet : low ≡ [] = ((append-none low later).0 h).0 in
    elim (Bool-cases (ltb (high_ps r.clock) pos)) [
      | inl q ↦
          let over =
            rise-high p (high_ps r.clock) d k hp
              (omega (arith, ltb→lt (high_ps r.clock) pos q, at_stop)) (omega arith) in
          omega arith
      | inr q ↦ absurd (cc (rw q at quiet))
    ]

runs_errors-stop :
    (es : List Event) (rs : List Run) (r : Run) (stop : ℕ)
    → runs_errors es rs ≡ []
    → Memᴰ r rs
    → r.stop ≡ some stop
    → stop_errors es r (some stop) ≡ []
unfolding runs_errors
runs_errors-stop es [] r stop h m q = absurd (MemD.not-nil m)
runs_errors-stop es (s ∷ rs) r stop h m q =
    let (here, later) = (append-none (stop_errors es s s.stop) (runs_errors es rs)).0 h in
    elim (MemD.cases_cons m) [
      | inl e ↦
          subst (λ o. stop_errors es r o ≡ []) q
            (subst (λ (x : Run). stop_errors es x x.stop ≡ []) (sym e) here)
      | inr n ↦ runs_errors-stop es rs r stop later n q
    ]

-- In a stimulus in which the rule on stops finds nothing, every rise of a run of a clock with a
-- period that comes before the run's stop has its fall before the stop, too.
pub check_free_stops-low :
    (v : Vec) (r : Run) (stop : ℕ)
    → check_free_stops v ≡ []
    → Memᴰ r (free_runs v)
    → r.stop ≡ some stop
    → 0 < r.clock.period
    → (k : ℕ) → r.start + k * r.clock.period < stop
    → r.start + k * r.clock.period + high_ps r.clock < stop
unfolding check_free_stops
check_free_stops-low v r stop h m q =
    stop_errors-low v.events r stop (runs_errors-stop v.events (free_runs v) r stop h m q)
