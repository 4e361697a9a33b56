-- ===== src/Xvec/Structure/Periods.antt =====
-- The clocks of a checked stimulus have a period, so the loops over their edges end.
use xilinx_unittests.Prelude.{
  ℕ, ◌<◌, ◌≡◌, arith, Bool-cases, inl, inr, Option, none, some, List, [], ◌∷◌, All, All-append, ok,
  bind-ok, true,
}
use xilinx_unittests.Xvec.{Name, Clock, Event, Header, Vec, check_clock, clock, name_eq}
use xilinx_unittests.Xvec.FreeClocks.{
  Run, Open, run_of, open_get, open_put, open_pop, stopped, is_start, is_stop, runs_from, free_runs,
  open_unstarted,
}
use xilinx_unittests.Xvec.FreeClocks.Runs.{HasPeriod}
use xilinx_unittests.Xvec.Structure.{check_clocks}

-- A clock that passes its rules: its name is its number, it has a period, and a high and a low phase.
pub record IsLegalClock (h : Header) (c : Clock) : Type 0 where
  pub numbered : name_eq c.name (Name.clk c.index) ≡ true
  pub in_range : c.index < h.nclk
  pub has_period : 0 < c.period
  pub has_high : 0 < c.duty
  pub has_low : c.duty < 100

check_clock-IsLegalClock :
    (h : Header) (c : Clock) (names after : List Name)
    → check_clock h c names ≡ ok after
    → IsLegalClock h c
unfolding check_clock
check_clock-IsLegalClock h c names after e = ground arith

pub check_clocks-IsLegalClock :
    (h : Header) (cs : List Clock) (names : List Name)
    → check_clocks h cs names ≡ ok tt
    → All (IsLegalClock h) cs
unfolding check_clocks
check_clocks-IsLegalClock h [] names e = tt
check_clocks-IsLegalClock h (c ∷ cs) names e =
    let (after, here, rest) = bind-ok (check_clock h c names) (check_clocks h cs) e in
    (check_clock-IsLegalClock h c names after here, check_clocks-IsLegalClock h cs after rest)

-- What every declared clock has, the clock of every run has.
module _ (P : Clock → Type 0) where
  run_of-All :
      (cs : List Clock) (n : Name) (s : ℕ) (stop : Option ℕ)
      → All P cs
      → All (λ (r : Run). P r.clock) (run_of (clock cs n) s stop)
  run_of-All [] n s stop a = tt
  run_of-All (c ∷ cs) n s stop a = elim (Bool-cases (name_eq c.name n)) [
    | inl q ↦ rw q (a.0, tt)
    | inr q ↦ rw q (run_of-All cs n s stop a.1)
  ]

  runs_from-All :
      (cs : List Clock) (es : List Event) (o : Open)
      → All P cs
      → All (λ (r : Run). P r.clock) (runs_from cs es o)
  unfolding runs_from
  runs_from-All cs [] [] a = tt
  runs_from-All cs [] ((n, s) ∷ o) a =
      All-append (λ (r : Run). P r.clock) (run_of (clock cs n) s none) (runs_from cs [] o)
        (run_of-All cs n s none a) (runs_from-All cs [] o a)
  runs_from-All cs (e ∷ es) o a = elim (Bool-cases (is_start e.op)) [
    | inl q ↦ rw q (runs_from-All cs es (open_put e.target e.t o) a)
    | inr q ↦ rw q (elim (Bool-cases (is_stop e.op)) [
      | inl r ↦ rw r (
          All-append (λ (r : Run). P r.clock) (stopped cs e (open_get e.target o))
            (runs_from cs es (open_pop e.target o)) (stopped-All (open_get e.target o))
            (runs_from-All cs es (open_pop e.target o) a))
      | inr r ↦ rw r (runs_from-All cs es o a)
    ])
  ]
    where
      stopped-All : (s : Option ℕ) → All (λ (r : Run). P r.clock) (stopped cs e s)
      stopped-All none = tt
      stopped-All (some s) = run_of-All cs e.target s (some e.t) a

  pub free_runs-All : (v : Vec) → All P v.clocks → All (λ (r : Run). P r.clock) (free_runs v)
  unfolding free_runs
  free_runs-All v = runs_from-All v.clocks v.events (open_unstarted v.events v.clocks [])

periods :
    (h : Header) (cs : List Clock) → All (IsLegalClock h) cs → All (λ (c : Clock). 0 < c.period) cs
periods h [] a = tt
periods h (c ∷ cs) a = (a.0.has_period, periods h cs a.1)

pub free_runs-HasPeriod :
    (v : Vec) → check_clocks v.header v.clocks [] ≡ ok tt → All HasPeriod (free_runs v)
free_runs-HasPeriod v e =
    free_runs-All (λ (c : Clock). 0 < c.period) v
      (periods v.header v.clocks (check_clocks-IsLegalClock v.header v.clocks [] e))
