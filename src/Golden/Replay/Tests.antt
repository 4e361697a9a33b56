-- ===== src/Golden/Replay/Tests.antt =====
-- A flip-flop that is replayed.
use xilinx_unittests.Prelude.{
  ℕ, String, Bool, true, false, if◌then◌else◌, ◌≡◌, all, refl, ap, Option, none, some, List, [],
  ◌∷◌, ◌++◌, Result, ok, err, ◌>>=◌,
}
use xilinx_unittests.Flop as Flop
use xilinx_unittests.Names.{Chars}
use xilinx_unittests.Xvec.{Name, Op, Mode, Clock, Event, Vec}
use xilinx_unittests.Dut.{Bit, DutMap, Vector}
use xilinx_unittests.Xtr.Prov.{Prov}
use xilinx_unittests.Xvec.Structure.{check_rules}
use xilinx_unittests.Validate.Whole.Clean.{IsClean}
use xilinx_unittests.Validate.Whole.Tests.{wrapper, captures, any_label, always}
use xilinx_unittests.Golden.{codes, decimal}
use xilinx_unittests.Golden.Model.{ModelClass, Out, Fault}
use xilinx_unittests.Golden.Replay.{Progress, replay, started, simultaneous_times, empty_trace}
use xilinx_unittests.Golden.Replay.Steps.{Step, do_steps, replay_steps}
use xilinx_unittests.Golden.Replay.Runs.{replay-Runs}
use xilinx_unittests.Golden.Replay.Valid.{replay-IsClean}

abbrev no_attrs : Flop.Attrs
no_attrs = record {
  init = none;
  is_c_inverted = none;
  is_d_inverted = none;
  is_ctrl_inverted = none;
}

abbrev tag : Flop.Prov → Prov
tag (Flop.Prov.doc n) = Prov.one (codes "doc:" ++ decimal n)
tag (Flop.Prov.inferred r) = Prov.one (codes "inferred:gsr")

abbrev out_of : Flop.Out → Out
out_of o = record { bits = (if o.bits then b'1' else b'0') ∷ []; prov = tag o.prov }

-- FDRE without attributes.
abbrev flop_class : ModelClass
flop_class = record {
  State = Flop.Flop;
  Raised = Flop.Fault;
  prim = "FDRE";
  output_widths = ("Q", 1) ∷ [];
  inputs = ("C", 1) ∷ ("CE", 1) ∷ ("D", 1) ∷ ("R", 1) ∷ [];
  create = λ a. ok (Flop.new Flop.fdre no_attrs);
  power_on = Flop.power_on;
  set_input = Flop.set_input;
  clock_edge = Flop.clock_edge;
  glbl = Flop.glbl;
  outputs = λ f. Flop.outputs f >>= λ o. ok (("Q", out_of o) ∷ []);
}

abbrev result : Result (Fault Flop.Fault) (Progress flop_class)
result = replay flop_class any_label always captures wrapper

abbrev begun : Progress flop_class
begun = started flop_class captures (Flop.power_on (Flop.new Flop.fdre no_attrs))

-- The end of the replay.
abbrev end_of : Result (Fault Flop.Fault) (Progress flop_class) → Progress flop_class
end_of (err e) = begun
end_of (ok p) = p

abbrev finished : Progress flop_class
finished = end_of result

replays : replay flop_class any_label always captures wrapper ≡ ok finished
unfolding replay xilinx_unittests.Validate.Whole.validate check_rules
    xilinx_unittests.Xvec.Structure.check_clocks xilinx_unittests.Xvec.check_clock
    xilinx_unittests.Xvec.Structure.check_events xilinx_unittests.Xvec.check_event
    xilinx_unittests.Xvec.check_op xilinx_unittests.Xvec.Timing.check_timing
    xilinx_unittests.Xvec.Timing.check_order xilinx_unittests.Xvec.Timing.check_groups
    xilinx_unittests.Xvec.Timing.group_from xilinx_unittests.Xvec.Timing.add_to_group
    xilinx_unittests.Xvec.Timing.check_group xilinx_unittests.Validate.Whole.check_from
    xilinx_unittests.Validate.Report.check_header xilinx_unittests.Validate.Groups.check_inits
    xilinx_unittests.Dut.in_ports xilinx_unittests.Dut.port_bits
    xilinx_unittests.Golden.Ports.apply_sets xilinx_unittests.Golden.Ports.bits_at
    xilinx_unittests.Golden.Replay.check_inputs xilinx_unittests.Golden.Replay.check_outputs
    xilinx_unittests.Golden.Replay.do_event xilinx_unittests.Golden.Replay.do_events
    xilinx_unittests.Golden.Replay.do_group xilinx_unittests.Golden.Replay.do_groups
    xilinx_unittests.Golden.Replay.drive_changed xilinx_unittests.Golden.Replay.drive_port
    xilinx_unittests.Golden.Ports.expand_free_clocks xilinx_unittests.Golden.Ports.port_text
    xilinx_unittests.Golden.Ports.port_value xilinx_unittests.Golden.Ports.put_bit
    xilinx_unittests.Golden.Ports.put_bits xilinx_unittests.Golden.digits_onto
    xilinx_unittests.Names.is_label xilinx_unittests.Names.is_port
    xilinx_unittests.Prelude.insert_by xilinx_unittests.Prelude.sort_by
    xilinx_unittests.Validate.Groups.all_lists xilinx_unittests.Validate.Groups.check_change
    xilinx_unittests.Validate.Groups.check_changes xilinx_unittests.Validate.Groups.check_edge
    xilinx_unittests.Validate.Groups.check_group xilinx_unittests.Validate.Groups.check_groups
    xilinx_unittests.Validate.Groups.classes_from xilinx_unittests.Validate.Groups.classes_of
    xilinx_unittests.Validate.Groups.groups_of xilinx_unittests.Validate.Groups.lists_of
    xilinx_unittests.Validate.Races.bisect_left xilinx_unittests.Validate.Races.check_free_stops
    xilinx_unittests.Validate.Races.check_gsr_release xilinx_unittests.Validate.Races.nearest
    xilinx_unittests.Validate.Races.release_errors xilinx_unittests.Validate.Races.restart
    xilinx_unittests.Validate.Races.runs_errors xilinx_unittests.Validate.Races.stop_errors
    xilinx_unittests.Validate.Races.times xilinx_unittests.Validate.Report.check_map_hw
    xilinx_unittests.Validate.Report.check_reject xilinx_unittests.Validate.Report.insert_key
    xilinx_unittests.Validate.Report.sorted_keys xilinx_unittests.Validate.Whole.check_body
    xilinx_unittests.Validate.check_event_gaps xilinx_unittests.Validate.event_times
    xilinx_unittests.Validate.gap_reasons xilinx_unittests.Validate.insert_time
    xilinx_unittests.Validate.min_event_gap xilinx_unittests.Xtr.Prov.commas
    xilinx_unittests.Xtr.Prov.prov_token xilinx_unittests.Xtr.add xilinx_unittests.Xtr.check_sample
    xilinx_unittests.Xtr.lookup xilinx_unittests.Xtr.put xilinx_unittests.Xvec.FreeClocks.edges
    xilinx_unittests.Xvec.FreeClocks.edges_of_runs xilinx_unittests.Xvec.FreeClocks.free_clock_edges
    xilinx_unittests.Xvec.FreeClocks.free_runs xilinx_unittests.Xvec.FreeClocks.open_unstarted
    xilinx_unittests.Xvec.FreeClocks.runs_from Flop.set_input Flop.power_on Flop.port_of Flop.drive
    Flop.new Flop.fdre Flop.glbl Flop.set_gsr Flop.clock_edge Flop.outputs Flop.edge
replays = refl

replay-Runs_example :
    (s : Flop.Flop) × (flop_class.create [] ≡ ok s)
    × (xs : List Step) × (replay_steps {R = Flop.Fault} captures wrapper ≡ ok xs)
    × (do_steps flop_class xs (Flop.power_on s, empty_trace captures.header)
        ≡ ok (finished.state, finished.trace))
replay-Runs_example = replay-Runs flop_class any_label always captures wrapper finished replays

replay-IsClean_example :
    (simultaneous_times captures.events ≡ [])
    × (check_rules any_label captures ≡ ok tt)
    × (always captures ≡ true)
    × IsClean captures wrapper
replay-IsClean_example =
    replay-IsClean flop_class any_label always captures wrapper finished replays
