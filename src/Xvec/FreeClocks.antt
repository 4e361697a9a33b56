-- ===== src/Xvec/FreeClocks.antt =====
-- `free_runs` and `free_clock_edges` of tools/xut/formats/xvec.py: the edges of the free-running
-- clocks, which validation, replay and the stimulus compiler share.
pub mod Edges
pub mod Runs
use xilinx_unittests.Prelude.{
  ℕ, zero, suc, ◌+◌, ◌-◌, ◌*◌, ◌/◌, Bool, true, false, not, ◌&&◌, ltb, leb, if◌then◌else◌, Option,
  none, some, List, [], ◌∷◌, ◌++◌, any, sort_by,
}
use xilinx_unittests.Xvec.{Name, Clock, Event, Vec, Op, Chars, name_eq, is_free, is_nil, clock}

-- `sorted(es, key=lambda e: e.t)`.
abbrev pub sort_events : List Event → List Event
sort_events = sort_by (λ e. e.t)

-- The dictionary `open_` of the runs that have not stopped: clock name to start.
abbrev pub Open : Type 0
Open = List (Name × ℕ)

abbrev pub open_get : Name → Open → Option ℕ
open_get n [] = none
open_get n ((m, t) ∷ o) = if name_eq m n then some t else open_get n o

abbrev pub open_put : Name → ℕ → Open → Open
open_put n t [] = (n, t) ∷ []
open_put n t ((m, s) ∷ o) = if name_eq m n then (m, t) ∷ o else (m, s) ∷ open_put n t o

abbrev pub open_pop : Name → Open → Open
open_pop n [] = []
open_pop n ((m, s) ∷ o) = if name_eq m n then o else (m, s) ∷ open_pop n o

-- (clock, start, stop); `none` for a run that goes on to the end of the file.
pub record Run : Type 0 where
  pub clock : Clock
  pub start : ℕ
  pub stop : Option ℕ

abbrev pub is_start : Op → Bool
is_start Op.clock_start = true
is_start _ = false

abbrev pub is_stop : Op → Bool
is_stop Op.clock_stop = true
is_stop _ = false

-- A free clock that no event starts runs from its phase.
unfoldable pub open_unstarted : List Event → List Clock → Open → Open
open_unstarted es [] o = o
open_unstarted es (c ∷ cs) o = open_unstarted es cs (
    if is_free c.mode && not (any (λ e. is_start e.op && name_eq e.target c.name) es)
    then open_put c.name c.phase o
    else o)

-- A name that `vec.clock` does not know raises KeyError, which the rules above exclude: no run.
abbrev pub run_of : Option Clock → ℕ → Option ℕ → List Run
run_of none s stop = []
run_of (some c) s stop = record { clock = c; start = s; stop = stop } ∷ []

abbrev pub stopped : List Clock → Event → Option ℕ → List Run
stopped cs e none = []
stopped cs e (some s) = run_of (clock cs e.target) s (some e.t)

unfoldable pub runs_from : List Clock → List Event → Open → List Run
runs_from cs [] [] = []
runs_from cs [] ((n, s) ∷ o) = run_of (clock cs n) s none ++ runs_from cs [] o
runs_from cs (e ∷ es) o =
    let started = runs_from cs es (open_put e.target e.t o) in
    let ended = stopped cs e (open_get e.target o) ++ runs_from cs es (open_pop e.target o) in
    let rest = runs_from cs es o in
    if is_start e.op then started else if is_stop e.op then ended else rest

unfoldable pub free_runs : Vec → List Run
free_runs v = runs_from v.clocks v.events (open_unstarted v.events v.clocks [])

abbrev pub edge_event : ℕ → Name → Chars → Event
edge_event t n v = record {
  t = t;
  op = Op.edge;
  target = n;
  lsb = 0;
  msb = 0;
  value = v;
  simultaneous = false;
}

abbrev pub rise : Clock → ℕ → Event
rise c t = edge_event t c.name (b'r' ∷ [])

abbrev pub fall : Clock → ℕ → Event
fall c t = edge_event t c.name (b'f' ∷ [])

abbrev pub high_ps : Clock → ℕ
high_ps c = c.period * c.duty / 100

-- `while t <= limit`, on fuel: a clock that `_check_clock` accepts has a period, so a round goes
-- forward at least one time unit, and `limit + 1` rounds are enough.
unfoldable pub edges : ℕ → Clock → ℕ → ℕ → List Event
edges zero c limit t = []
edges (suc fuel) c limit t =
    let rest = edges fuel c limit (t + c.period) in
    let here =
      rise c t ∷ (if leb (t + high_ps c) limit then fall c (t + high_ps c) ∷ rest else rest) in
    if leb t limit then here else []

abbrev pub last_time : List Event → ℕ
last_time [] = 0
last_time (e ∷ []) = e.t
last_time (e ∷ f ∷ es) = last_time (f ∷ es)

-- `end if stop is None else stop - 1`. A stop at time 0 leaves -1, before every edge: no edges.
abbrev pub limit_of : ℕ → Option ℕ → Option ℕ
limit_of last none = some last
limit_of last (some zero) = none
limit_of last (some (suc s)) = some s

abbrev pub edges_to : Option ℕ → Clock → ℕ → List Event
edges_to none c start = []
edges_to (some limit) c start = edges (suc limit) c limit start

unfoldable pub edges_of_runs : ℕ → List Run → List Event
edges_of_runs last [] = []
edges_of_runs last (r ∷ rs) =
    edges_to (limit_of last r.stop) r.clock r.start ++ edges_of_runs last rs

unfoldable pub free_clock_edges : Vec → List Event
free_clock_edges v = sort_events (edges_of_runs (last_time v.events) (free_runs v))
