-- ===== src/Validate/Whole/Tests.antt =====
-- A stimulus for a flip-flop with its wrapper, which passes the validation.
use xilinx_unittests.Prelude.{
  ℕ, String, Bool, true, false, ◌≡◌, refl, Option, none, some, List, [], ◌∷◌, Result, ok, err,
  Gives,
}
use xilinx_unittests.Names.{Chars}
use xilinx_unittests.Xvec.{Name, Op, Mode, Clock, Event, Vec}
use xilinx_unittests.Xvec.Structure.{check_rules}
use xilinx_unittests.Dut.{Bit, DutMap, Vector}
use xilinx_unittests.Validate.{min_sep_ps}
use xilinx_unittests.Validate.Report.{Report, nothing}
use xilinx_unittests.Validate.Groups.{KeyError}
use xilinx_unittests.Validate.Whole.{validate}
use xilinx_unittests.Validate.Whole.Clean.{IsClean, validate-IsClean}

abbrev pub pin : Vector → ℕ → String → String → Bit
pin v k p c = record { vec = v; bit = k; port = p; index = 0; cls = c; role = "" }

abbrev pub wrapper : DutMap
wrapper = record {
  prim = "FDRE";
  family = "7series";
  cfg = "base";
  attrs = [];
  nclk = 1;
  nin = 3;
  nout = 1;
  bits =
      pin Vector.clk_vec 0 "C" "clock"
      ∷ pin Vector.in_vec 0 "CE" "data"
      ∷ pin Vector.in_vec 1 "D" "data"
      ∷ pin Vector.in_vec 2 "R" "data"
      ∷ pin Vector.out_vec 0 "Q" "data"
      ∷ [];
  min_event_gap_ps = none;
}

abbrev pub at_time : ℕ → Op → Name → ℕ → ℕ → Chars → Event
at_time t op target msb lsb value = record {
  t = t;
  op = op;
  target = target;
  msb = msb;
  lsb = lsb;
  value = value;
  simultaneous = false;
}

abbrev pub captures : Vec
captures = record {
  header = record {
    prim = "FDRE";
    cfg = "base";
    nin = 3;
    nout = 1;
    nclk = 1;
    settle_ps = 120000;
    seed = 17;
    async_sep_ps = none;
    expect = none;
    illegal = none;
    attrs = [];
  };
  clocks =
      record {
        name = Name.clk 0;
        index = 0;
        period = 10000;
        phase = 0;
        duty = 50;
        mode = Mode.stepped;
      }
      ∷ [];
  events =
      at_time 120000 Op.set (Name.word "in") 1 0 (b'1' ∷ b'1' ∷ [])
      ∷ at_time 140000 Op.edge (Name.clk 0) 0 0 (b'r' ∷ [])
      ∷ at_time 160000 Op.sample (Name.auto 0) 0 0 []
      ∷ at_time 180000 Op.end (Name.word "") 0 0 []
      ∷ [];
  hw_renderable = none;
  hw_reason = [];
}

abbrev pub any_label : Name → Bool
any_label n = true

abbrev pub always : Vec → Bool
always v = true

abbrev clean : Report
clean = nothing

validates : validate any_label always captures wrapper min_sep_ps ≡ ok clean
unfolding validate check_rules xilinx_unittests.Xvec.Structure.check_clocks
    xilinx_unittests.Xvec.check_clock xilinx_unittests.Xvec.Structure.check_events
    xilinx_unittests.Xvec.check_event xilinx_unittests.Xvec.check_op
    xilinx_unittests.Xvec.Timing.check_timing xilinx_unittests.Xvec.Timing.check_order
    xilinx_unittests.Xvec.Timing.check_groups xilinx_unittests.Xvec.Timing.group_from
    xilinx_unittests.Xvec.Timing.add_to_group xilinx_unittests.Xvec.Timing.check_group
    xilinx_unittests.Validate.Whole.check_from xilinx_unittests.Validate.Report.check_header
    xilinx_unittests.Validate.Groups.check_inits xilinx_unittests.Validate.Groups.check_groups
    xilinx_unittests.Prelude.insert_by xilinx_unittests.Prelude.sort_by
    xilinx_unittests.Validate.Groups.all_lists xilinx_unittests.Validate.Groups.check_change
    xilinx_unittests.Validate.Groups.check_changes xilinx_unittests.Validate.Groups.check_edge
    xilinx_unittests.Validate.Groups.check_group xilinx_unittests.Validate.Groups.classes_from
    xilinx_unittests.Validate.Groups.classes_of xilinx_unittests.Validate.Groups.groups_of
    xilinx_unittests.Validate.Groups.lists_of xilinx_unittests.Validate.Races.bisect_left
    xilinx_unittests.Validate.Races.check_free_stops
    xilinx_unittests.Validate.Races.check_gsr_release xilinx_unittests.Validate.Races.nearest
    xilinx_unittests.Validate.Races.release_errors xilinx_unittests.Validate.Races.restart
    xilinx_unittests.Validate.Races.runs_errors xilinx_unittests.Validate.Races.stop_errors
    xilinx_unittests.Validate.Races.times xilinx_unittests.Validate.Report.check_map_hw
    xilinx_unittests.Validate.Report.check_reject xilinx_unittests.Validate.Report.insert_key
    xilinx_unittests.Validate.Report.sorted_keys xilinx_unittests.Validate.Whole.check_body
    xilinx_unittests.Validate.check_event_gaps xilinx_unittests.Validate.event_times
    xilinx_unittests.Validate.gap_reasons xilinx_unittests.Validate.insert_time
    xilinx_unittests.Validate.min_event_gap xilinx_unittests.Xvec.FreeClocks.edges
    xilinx_unittests.Xvec.FreeClocks.edges_of_runs xilinx_unittests.Xvec.FreeClocks.free_clock_edges
    xilinx_unittests.Xvec.FreeClocks.free_runs xilinx_unittests.Xvec.FreeClocks.open_unstarted
    xilinx_unittests.Xvec.FreeClocks.runs_from
validates = refl

validate-IsClean_example :
    (check_rules any_label captures ≡ ok tt) × (always captures ≡ true) × IsClean captures wrapper
validate-IsClean_example =
    validate-IsClean any_label always captures wrapper min_sep_ps clean validates refl
