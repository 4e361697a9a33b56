-- ===== src/StimGen/Tests.antt =====
-- A generator for a reset flip-flop, and the theorems on the builder at it.
use xilinx_unittests.Prelude.{
  String, Bool, true, ◌≡◌, refl, none, List, [], ◌∷◌, map, Result, ok, err, ◌>>=◌,
}
use xilinx_unittests.Xvec.{Name, Event, Header, Vec}
use xilinx_unittests.Dut.{Bit, DutMap, Vector, port_bits, clock_name, in_ports, cls_of}
use xilinx_unittests.Validate.{min_event_gap, sep_of, check_event_gaps}
use xilinx_unittests.StimGen as Gen
use xilinx_unittests.StimGen.{Builder, Value, Fault, Options}
use xilinx_unittests.StimGen.Commands.{Command, step, generate}
use xilinx_unittests.StimGen.Spacing.{IsSpaced, Ensures}
use xilinx_unittests.StimGen.Calls.{generate-new}
use xilinx_unittests.StimGen.Built.{built-gaps}

abbrev in_bit : String → String → Bit
in_bit p c = record { vec = Vector.in_vec; bit = 0; port = p; index = 0; cls = c; role = "" }

abbrev fdre_map : DutMap
fdre_map = record {
  prim = "FDRE";
  family = "7series";
  cfg = "base";
  attrs = [];
  nclk = 1;
  nin = 3;
  nout = 1;
  bits =
      record { vec = Vector.clk_vec; bit = 0; port = "C"; index = 0; cls = "clock"; role = "" }
      ∷ in_bit "CE" "data"
      ∷ record (in_bit "D" "data") { bit = 1 }
      ∷ record (in_bit "R" "data") { bit = 2 }
      ∷ [];
  min_event_gap_ps = none;
}

abbrev options : Options
options = record {
  settle_ps = 120000;
  period_ps = 10000;
  gap_ps = 1000;
  async_sep_ps = 1000;
  expect = none;
  illegal = [];
}

abbrev any_label : Name → Bool
any_label n = true

abbrev script : List Command
script =
    Command.init (("CE", Value.num 1) ∷ [])
    ∷ Command.set (("D", Value.num 1) ∷ [])
    ∷ Command.cycle none 1 true
    ∷ Command.set (("D", Value.num 0) ∷ ("R", Value.num 1) ∷ [])
    ∷ []

abbrev or_none : Result Fault Builder → List Event
or_none (ok b) = b.events
or_none (err e) = []

event_times_of_script :
    map (λ (e : Event). e.t) (or_none (Gen.new fdre_map 7 options >>= generate any_label script))
    ≡ 131000 ∷ 131000 ∷ 127000 ∷ 126000 ∷ 122000 ∷ 121000 ∷ 120000 ∷ 0 ∷ []
unfolding Gen.new generate step Gen.init Gen.set Gen.cycle Gen.cycles Gen.half_cycles Gen.edge
    Gen.edge_at Gen.sample Gen.sample_as Gen.put_all Gen.put_changed Gen.put Gen.put_bits
    Gen.bits_of Gen.binary Gen.emit Gen.after Gen.new_time Gen.check_classes port_bits clock_name
    in_ports cls_of min_event_gap
event_times_of_script = refl

generate-new_example : Ensures IsSpaced (Gen.new fdre_map 7 options >>= generate any_label script)
generate-new_example = generate-new any_label fdre_map 7 options script

abbrev or_fresh : Result Fault Builder → Builder
or_fresh (ok b) = b
or_fresh (err e) = Gen.fresh fdre_map 7 options 1000

abbrev generated : Builder
unfolding Gen.new generate step Gen.init Gen.set Gen.cycle Gen.cycles Gen.half_cycles Gen.edge
    Gen.edge_at Gen.sample Gen.sample_as Gen.put_all Gen.put_changed Gen.put Gen.put_bits
    Gen.bits_of Gen.binary Gen.emit Gen.after Gen.new_time Gen.check_classes port_bits clock_name
    in_ports cls_of min_event_gap
generated = or_fresh (Gen.new fdre_map 7 options >>= generate any_label script)

generated-returns : (Gen.new fdre_map 7 options >>= generate any_label script) ≡ ok generated
unfolding Gen.new generate step Gen.init Gen.set Gen.cycle Gen.cycles Gen.half_cycles Gen.edge
    Gen.edge_at Gen.sample Gen.sample_as Gen.put_all Gen.put_changed Gen.put Gen.put_bits
    Gen.bits_of Gen.binary Gen.emit Gen.after Gen.new_time Gen.check_classes port_bits clock_name
    in_ports cls_of min_event_gap
generated-returns = refl

abbrev stimulus_of : Result Fault Vec → Header → Vec
stimulus_of (ok v) h = v
stimulus_of (err e) h = record {
  header = h;
  clocks = [];
  events = [];
  hw_renderable = none;
  hw_reason = [];
}

abbrev any_header : Header
any_header = record {
  prim = "FDRE";
  cfg = "base";
  nin = 3;
  nout = 1;
  nclk = 1;
  settle_ps = 120000;
  seed = 7;
  async_sep_ps = none;
  expect = none;
  illegal = none;
  attrs = [];
}

built : Gen.build generated ≡ ok (stimulus_of (Gen.build generated) any_header)
unfolding Gen.build Gen.after Gen.new_time Gen.new generate step Gen.init Gen.set Gen.cycle
    Gen.cycles Gen.half_cycles Gen.edge Gen.edge_at Gen.sample Gen.sample_as Gen.put_all
    Gen.put_changed Gen.put Gen.put_bits Gen.bits_of Gen.binary Gen.emit Gen.check_classes port_bits
    clock_name in_ports cls_of min_event_gap
built = refl

built-gaps_example :
    check_event_gaps
      (stimulus_of (Gen.build generated) any_header)
      (min_event_gap (sep_of (stimulus_of (Gen.build generated) any_header).header) generated.m)
    ≡ []
built-gaps_example =
    built-gaps any_label fdre_map 7 options script generated
      (stimulus_of (Gen.build generated) any_header) generated-returns built
