-- ===== src/Xvec/Tests.antt =====
-- A small stimulus, and the theorems on the format at it.
use mathlib.Core.List.{Memᴰ}
use xilinx_unittests.Prelude.{
  ℕ, Bool, true, false, ◌≡◌, ◌↔◌, refl, arith, none, some, List, [], ◌∷◌, length, ok, err, IsSorted,
  sort_by,
}
use xilinx_unittests.Xvec.{
  Name, Op, Mode, Clock, Event, Header, Vec, Error, check_clock, check_op, check_event,
}
use xilinx_unittests.Xvec.Timing.{
  check_order, add_to_group, group_from, check_group, check_groups, check_timing,
}
use xilinx_unittests.Xvec.Timing.Groups.{at}
use xilinx_unittests.Xvec.Timing.Legal.{IsOrdered, IsLegalGroup, check_timing_iff}
use xilinx_unittests.Xvec.FreeClocks.{
  Run, free_runs, runs_from, open_unstarted, edges, edges_of_runs, free_clock_edges, last_time,
}
use xilinx_unittests.Xvec.FreeClocks.Edges.{IsEdge, edges_iff}
use xilinx_unittests.Xvec.FreeClocks.Runs.{
  IsRunEdge, InWindow, free_clock_edges_iff, free_clock_edges_window,
}
use xilinx_unittests.Xvec.Structure.{check_clocks, check_events, check_rules, checkable}
use xilinx_unittests.Xvec.Structure.Periods.{free_runs-HasPeriod}
use xilinx_unittests.Xvec.Structure.Checkable.{checkable_of_legal, checkable-clean}

abbrev header : Header
header = record {
  prim = "FDRE";
  cfg = "base";
  nin = 3;
  nout = 1;
  nclk = 2;
  settle_ps = 101000;
  seed = 7;
  async_sep_ps = some 1000;
  expect = none;
  illegal = none;
  attrs = [];
}

abbrev stepped_clock : Clock
stepped_clock = record {
  name = Name.clk 0;
  index = 0;
  period = 10000;
  phase = 0;
  duty = 50;
  mode = Mode.stepped;
}

abbrev free_clock : Clock
free_clock = record {
  name = Name.clk 1;
  index = 1;
  period = 4000;
  phase = 0;
  duty = 25;
  mode = Mode.free;
}

abbrev event : ℕ → Op → Name → List ℕ → Event
event t op target value = record {
  t = t;
  op = op;
  target = target;
  lsb = 0;
  msb = 0;
  value = value;
  simultaneous = false;
}

abbrev set_bit : ℕ → ℕ → ℕ → Event
set_bit t b v = record (event t Op.set (Name.word "in") (v ∷ [])) { lsb = b; msb = b }

-- Two data bits change together, then the stepped clock rises, then a sample.
abbrev demo : Vec
demo = record {
  header = header;
  clocks = stepped_clock ∷ free_clock ∷ [];
  events =
      set_bit 0 0 b'0'
      ∷ event 101000 Op.clock_start (Name.clk 1) []
      ∷ set_bit 102000 0 b'1'
      ∷ set_bit 102000 1 b'1'
      ∷ event 103000 Op.edge (Name.clk 0) (b'r' ∷ [])
      ∷ event 104000 Op.sample (Name.auto 0) []
      ∷ event 108000 Op.clock_stop (Name.clk 1) []
      ∷ event 110000 Op.end (Name.word "") []
      ∷ [];
  hw_renderable = none;
  hw_reason = [];
}

abbrev any_label : Name → Bool
any_label n = true

demo_rules : check_rules any_label demo ≡ ok tt
unfolding check_rules check_clocks check_clock check_events check_event check_op check_timing
    check_order check_groups check_group group_from add_to_group
demo_rules = refl

demo_clocks : check_clocks header (stepped_clock ∷ free_clock ∷ []) [] ≡ ok tt
unfolding check_clocks check_clock
demo_clocks = refl

demo_edges : length (free_clock_edges demo) ≡ 4
unfolding free_clock_edges free_runs runs_from open_unstarted edges_of_runs edges sort_by
demo_edges = refl

demo_timing : check_timing demo.events ≡ ok tt
unfolding check_timing check_order check_groups check_group group_from add_to_group
demo_timing = refl

check_timing_iff_example :
    (check_timing demo.events ≡ ok tt)
    ↔ (IsOrdered demo.events × ((t : ℕ) → IsLegalGroup (at t demo.events)))
check_timing_iff_example = check_timing_iff demo.events

edges_iff_example :
    Memᴰ (event 5000 Op.edge (Name.clk 1) (b'r' ∷ [])) (edges 9000 free_clock 8000 1000)
    ↔ IsEdge free_clock 8000 1000 (event 5000 Op.edge (Name.clk 1) (b'r' ∷ []))
edges_iff_example =
    edges_iff 9000 free_clock 8000 1000 (event 5000 Op.edge (Name.clk 1) (b'r' ∷ [])) (omega arith)
      (omega arith)

abbrev first_rise : Event
first_rise = event 101000 Op.edge (Name.clk 1) (b'r' ∷ [])

free_clock_edges_iff_example :
    Memᴰ first_rise (free_clock_edges demo)
    ↔ ((r : Run) × Memᴰ r (free_runs demo) × IsRunEdge (last_time demo.events) r first_rise)
free_clock_edges_iff_example =
    free_clock_edges_iff demo first_rise (free_runs-HasPeriod demo demo_clocks)

free_clock_edges_window_example :
    IsSorted (λ e. e.t) (free_clock_edges demo)
    × ((e : Event)
        → Memᴰ e (free_clock_edges demo)
        → (r : Run) × Memᴰ r (free_runs demo) × InWindow (last_time demo.events) r e)
free_clock_edges_window_example =
    free_clock_edges_window demo (free_runs-HasPeriod demo demo_clocks)

checkable_of_legal_example : checkable any_label demo ≡ demo
checkable_of_legal_example = checkable_of_legal any_label demo demo_rules

-- The events of `demo` in another order, which the structure rules refuse.
abbrev shuffled : Vec
shuffled = record demo { events = event 103000 Op.edge (Name.clk 0) (b'r' ∷ []) ∷ demo.events }

checkable-clean_example :
    (check_clocks header (checkable any_label shuffled).clocks [] ≡ ok tt)
    × ((e : Event)
        → Memᴰ e (checkable any_label shuffled).events
        → (n : List Name) × (check_event any_label (checkable any_label shuffled) e [] ≡ ok n))
    × IsSorted (λ (e : Event). e.t) (checkable any_label shuffled).events
checkable-clean_example = checkable-clean any_label shuffled

-- A clock that is refused for its period keeps its name from a later one.
abbrev twice_declared : Vec
twice_declared = record demo {
  clocks = record stepped_clock { period = 0 } ∷ stepped_clock ∷ free_clock ∷ [];
}

name_stays : (checkable any_label twice_declared).clocks ≡ free_clock ∷ []
unfolding checkable xilinx_unittests.Xvec.Structure.keep_clocks
    xilinx_unittests.Xvec.Structure.names_after check_clock
name_stays = refl

shuffled_refused : check_timing shuffled.events ≡ err Error.time_backwards
unfolding check_timing check_order
shuffled_refused = refl

-- Overlapping `set`s at one time are accepted beside a marked event of another kind.
abbrev overlapping : List Event
overlapping =
    record (set_bit 102000 0 b'1') { simultaneous = true }
    ∷ record (set_bit 102000 0 b'0') { simultaneous = true }
    ∷ record (event 102000 Op.edge (Name.clk 0) (b'r' ∷ [])) { simultaneous = true }
    ∷ []

overlapping_accepted : check_timing overlapping ≡ ok tt
unfolding check_timing check_order check_groups check_group group_from add_to_group
overlapping_accepted = refl
