-- ===== src/Validate/Whole.antt =====
-- `validate` of tools/xut/validate.py, the whole of it.
pub mod Attributes
pub mod Clean
pub mod Lookups
pub mod Loop
pub mod Known
pub mod Total
pub mod Tests
use xilinx_unittests.Prelude.{
  ℕ, Bool, true, false, not, ◌&&◌, ◌||◌, ◌==◌, ltb, if◌then◌else◌, Option, none, some, List, [],
  ◌∷◌, ◌++◌, any, map, Result, ok, err, ◌>>=◌,
}
use xilinx_unittests.Xvec.{Name, Op, Clock, Event, Header, Vec, Error, is_set}
use xilinx_unittests.Xvec.Structure.{check_rules, checkable}
use xilinx_unittests.Xvec.FreeClocks.{sort_events, free_clock_edges}
use xilinx_unittests.Dut.{Bit, DutMap, Vector, of}
use xilinx_unittests.Validate.{Reason, min_sep_ps, min_event_gap, sep_of, is_init, check_event_gaps}
use xilinx_unittests.Validate.Races.{check_gsr_release, check_free_stops}
use xilinx_unittests.Validate.Report.{
  Problem, Report, nothing, ◌⊕◌, problems, problem_if, reasons, passes, is_reject, check_header,
  check_map_hw, check_reject,
}
use xilinx_unittests.Validate.Groups.{
  KeyError, Context, Levels, is_sample, is_edge, check_inits, groups_of, check_groups,
}

abbrev pub later_events : List Event → List Event
later_events [] = []
later_events (e ∷ es) = let rest = later_events es in if is_init e then rest else e ∷ rest

-- The timeline: the events but the initialisation lines, and the edges of the free clocks.
abbrev pub timed : Vec → List Event
timed v = sort_events (later_events v.events ++ free_clock_edges v)

abbrev pub edge_times : List Event → List ℕ
edge_times [] = []
edge_times (e ∷ es) = let rest = edge_times es in if is_edge e then e.t ∷ rest else rest

abbrev pub idle : List Clock → Levels
idle cs = map (λ c. (c.name, b'f' ∷ [])) cs

abbrev pub context : Vec → DutMap → ℕ → Context
context v m gap = record {
  ins = of m Vector.in_vec;
  clocks = v.clocks;
  computed = free_clock_edges v;
  edges = edge_times (timed v);
  sep = sep_of v.header;
  gap = gap;
}

-- The rules that look at no time group.
abbrev pub file_report : Vec → DutMap → Report → Report
file_report v m inits =
    problem_if (ltb (sep_of v.header) min_sep_ps) Problem.sep_too_small
    ⊕ check_map_hw v m
    ⊕ reasons (check_event_gaps v (min_event_gap (sep_of v.header) m))
    ⊕ problems (map Problem.race (check_free_stops v))
    ⊕ inits
    ⊕ problems (map Problem.race (check_gsr_release (timed v) (sep_of v.header)))
    ⊕ check_reject v.header
    ⊕ problem_if (not (is_reject v.header.expect) && not (any is_sample v.events))
        Problem.no_samples

-- The part after the header, where bit classes can be looked up.
unfoldable pub check_body : Vec → DutMap → ℕ → Result KeyError Report
check_body v m gap = do
  inits ← check_inits (of m Vector.in_vec) v.events
  groups ← check_groups (context v m gap) none (groups_of (timed v)) (idle v.clocks)
  ok (file_report v m inits ⊕ groups)

abbrev pub wrong_wrapper : Vec → DutMap → Bool
wrong_wrapper v m = not (v.header.nin == m.nin) || not (v.header.nclk == m.nclk)

-- From the header on, after what the structure check has reported.
unfoldable pub check_from : Report → Vec → DutMap → ℕ → Result KeyError Report
unfolding check_body
check_from r v m gap =
    let s = r ⊕ check_header v.header m in
    if not (passes s) && wrong_wrapper v m then ok s else (check_body v m gap >>= λ b. ok (s ⊕ b))

-- `is_label` is the grammar of labels; `survives` tells whether the stimulus, written as text and read
-- back, is the same.
module _ (is_label : Name → Bool) (survives : Vec → Bool) where
  -- What `check_structure` raises.
  abbrev pub raised : Vec → Result Error (Unit {0}) → Option Problem
  raised v (err e) = some (Problem.structure e)
  raised v (ok u) = if survives v then none else some Problem.no_round_trip

  abbrev pub start : Vec → DutMap → ℕ → Option Problem → Result KeyError Report
  start v m gap none = check_from nothing v m gap
  start v m gap (some p) = check_from (problems (p ∷ [])) (checkable is_label v) m gap

  unfoldable pub validate : Vec → DutMap → ℕ → Result KeyError Report
  validate v m gap = start v m gap (raised v (check_rules is_label v))
