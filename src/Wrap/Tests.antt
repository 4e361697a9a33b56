-- ===== src/Wrap/Tests.antt =====
-- The wrapper of a flip-flop with a bidirectional port, literals of attributes, and the theorems on them.
use xilinx_unittests.Prelude.{
  ℕ, String, true, false, ◌≡◌, refl, none, List, [], ◌∷◌, Result, ok, err,
}
use xilinx_unittests.Names.{Chars}
use xilinx_unittests.Golden.{codes}
use xilinx_unittests.Dut.{DutMap, Vector, check_map}
use xilinx_unittests.Wrap.{PortSpec, DutSpec, SpecError, build_map}
use xilinx_unittests.Wrap.Verilog.{Slice, Connection, Wrapper, RenderError, render_wrapper}
use xilinx_unittests.Wrap.Numbered.{build_map-checked}
use xilinx_unittests.Wrap.Rendered.{AreJoined, all_lines_of, render_wrapper-AreJoined}
use xilinx_unittests.Wrap.Literal.{Literal, parse_literal}
use xilinx_unittests.Wrap.Attribute.{
  AttrValue, AttrError, render_bits, render_integer, render_string,
}
use xilinx_unittests.Wrap.Fits.{ReadsAs, IsNumber, render_bits-ReadsAs}

abbrev port : String → String → ℕ → String → PortSpec
port name direction width cls = record {
  name = name;
  direction = direction;
  width = width;
  cls = cls;
}

abbrev spec : DutSpec
spec = record {
  prim = "CELL";
  family = "7series";
  cfg = "base";
  ports =
      port "C" "input" 1 "clock"
      ∷ port "D" "input" 3 "data"
      ∷ port "IO" "inout" 2 "inout"
      ∷ port "Q" "output" 2 "data"
      ∷ [];
  attrs = [];
  raw_clock_out = false;
  min_event_gap_ps = none;
}

abbrev or_no_map : Result SpecError DutMap → DutMap
or_no_map (err e) = record {
  prim = "";
  family = "";
  cfg = "";
  attrs = [];
  nclk = 0;
  nin = 0;
  nout = 0;
  bits = [];
  min_event_gap_ps = none;
}
or_no_map (ok m) = m

abbrev built : DutMap
built = or_no_map (build_map spec)

made : build_map spec ≡ ok built
unfolding build_map render_bits xilinx_unittests.Golden.digits_onto
made = refl

build_map-checked_example : check_map built ≡ ok tt
build_map-checked_example = build_map-checked spec built made

render_wrapper-AreJoined_example :
    (w : Wrapper) × (render_wrapper spec built ≡ ok w)
    × (w.lines ≡ all_lines_of (λ v. 0) spec.ports)
    × AreJoined (λ v. 0) spec.ports w.connections
render_wrapper-AreJoined_example = render_wrapper-AreJoined spec built made

abbrev connections_of : Result RenderError Wrapper → List Connection
connections_of (err e) = []
connections_of (ok w) = w.connections

connected :
    connections_of (render_wrapper spec built)
    ≡ Connection.to_slice "C" Vector.clk_vec (Slice.one 0)
      ∷ Connection.to_slice "D" Vector.in_vec (Slice.range 2 0)
      ∷ Connection.to_net "IO"
      ∷ Connection.to_slice "Q" Vector.out_vec (Slice.range 3 2)
      ∷ []
unfolding build_map render_wrapper render_bits xilinx_unittests.Golden.digits_onto
connected = refl

-- A port twice.
twice :
    build_map (record spec { ports = port "D" "input" 1 "data" ∷ port "D" "output" 1 "data" ∷ [] })
    ≡ err SpecError.duplicate_port
unfolding build_map render_bits xilinx_unittests.Golden.digits_onto
twice = refl

abbrev initial : Chars
initial = codes "16'h00a5"

rendered : render_bits 16 (AttrValue.of_nat 165) false ≡ ok initial
unfolding render_bits xilinx_unittests.Golden.digits_onto parse_literal
rendered = refl

render_bits-ReadsAs_example : (n : ℕ) × ReadsAs 16 initial n × IsNumber (AttrValue.of_nat 165) n
render_bits-ReadsAs_example = render_bits-ReadsAs 16 (AttrValue.of_nat 165) initial rendered

too_wide : render_bits 4 (AttrValue.of_text (codes "4'd16")) false ≡ err AttrError.no_fit
unfolding render_bits parse_literal xilinx_unittests.Wrap.Literal.match_based
    xilinx_unittests.Wrap.Literal.int_of
too_wide = refl

unknown_bits : render_bits 4 (AttrValue.of_text (codes " 4'b1x0z ")) true ≡ ok (codes "4'b1x0z")
unfolding render_bits xilinx_unittests.Wrap.Literal.match_based xilinx_unittests.Wrap.Literal.int_of
    parse_literal
unknown_bits = refl

-- The prefix of a Python literal is taken for digits, and stays in the Verilog.
python_prefix : render_bits 4 (AttrValue.of_text (codes "4'b0b1")) false ≡ ok (codes "4'b0b1")
unfolding render_bits parse_literal render_integer xilinx_unittests.Golden.digits_onto
python_prefix = refl

integers : render_integer (AttrValue.of_text (codes "-12")) ≡ ok (codes "-12")
unfolding render_integer xilinx_unittests.Golden.digits_onto
integers = refl

quoted : render_string (AttrValue.of_text (codes "\"TRUE\"")) ≡ ok (codes "\"TRUE\"")
unfolding render_string
quoted = refl
