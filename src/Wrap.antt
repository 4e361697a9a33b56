-- ===== src/Wrap.antt =====
-- tools/xut/wrap.py: `build_map`, the assignment of every port bit to a bit of the wrapper's vectors, with
-- `_check_port` before it.
pub mod Added
pub mod Attribute
pub mod Counted
pub mod Digits
pub mod Fits
pub mod Literal
pub mod Numbered
pub mod Rendered
pub mod Runs
pub mod Tests
pub mod Verilog
pub mod Wiring
use xilinx_unittests.Prelude.{
  ℕ, zero, suc, ◌==◌, String, Bool, not, ◌&&◌, if◌then◌else◌, str_eq, Option, List, [], ◌∷◌, ◌++◌,
  Result, ok, ◌>>=◌, ◌>>◌, refuse,
}
use xilinx_unittests.Dut.{Vector, vector_eq, Bit, DutMap, contains}

-- A width that is no integer, or is negative, is refused as 0 is.
pub record PortSpec : Type 0 where
  pub name : String
  pub direction : String
  pub width : ℕ
  pub cls : String

pub record DutSpec : Type 0 where
  pub prim : String
  pub family : String
  pub cfg : String
  pub ports : List PortSpec
  pub attrs : List (String × String)
  pub raw_clock_out : Bool
  pub min_event_gap_ps : Option ℕ

pub data SpecError : Type 0 where
  duplicate_port unknown_direction wrong_class bad_width clock_output : SpecError

-- `_CLASSES_FOR`
abbrev pub directions : List String
directions = "input" ∷ "output" ∷ "inout" ∷ []

abbrev pub input_classes : List String
input_classes = "clock" ∷ "async" ∷ "gate" ∷ "data" ∷ "pad" ∷ "drp" ∷ []

abbrev pub output_classes : List String
output_classes = "data" ∷ "clock_out" ∷ "pad" ∷ "drp" ∷ []

abbrev pub classes_for : String → List String
classes_for d =
    if str_eq d "input"
    then input_classes
    else if str_eq d "output"
    then output_classes
    else "inout" ∷ []

-- `_check_port`; the name is added to `seen` by the loop.
unfoldable pub check_port : Bool → PortSpec → List String → Result SpecError (Unit {0})
check_port raw p seen = do
  refuse (contains p.name seen) SpecError.duplicate_port
  refuse (not (contains p.direction directions)) SpecError.unknown_direction
  refuse (not (contains p.cls (classes_for p.direction))) SpecError.wrong_class
  refuse (p.width == 0) SpecError.bad_width
  refuse (str_eq p.cls "clock_out" && not raw) SpecError.clock_output

-- The state of the loop: `bits`, and `n` of each vector.
pub record Layout : Type 0 where
  pub bits : List Bit
  pub n : Vector → ℕ

abbrev pub bump : Vector → (Vector → ℕ) → Vector → ℕ
bump v n w = if vector_eq v w then suc (n w) else n w

abbrev pub bit_of : Vector → ℕ → PortSpec → ℕ → String → Bit
bit_of v k p i role = record {
  vec = v;
  bit = k;
  port = p.name;
  index = i;
  cls = p.cls;
  role = role;
}

abbrev pub append_bit : Vector → PortSpec → String → ℕ → Layout → Layout
append_bit v p role i l = record { bits = l.bits ++ bit_of v (l.n v) p i role ∷ []; n = bump v l.n }

-- `add`: bit `i` and those after it, `left` of them.
unfoldable pub add_from : Vector → PortSpec → String → ℕ → ℕ → Layout → Layout
add_from v p role i zero l = l
add_from v p role i (suc left) l = add_from v p role (suc i) left (append_bit v p role i l)

abbrev pub add_bits : Vector → PortSpec → String → Layout → Layout
add_bits v p role l = add_from v p role 0 p.width l

-- The vector of a port that is not bidirectional.
abbrev pub vector_of : PortSpec → Vector
vector_of p =
    if str_eq p.direction "input"
    then (if str_eq p.cls "clock" then Vector.clk_vec else Vector.in_vec)
    else Vector.out_vec

abbrev pub add_port : PortSpec → Layout → Layout
add_port p l =
    if str_eq p.direction "inout"
    then add_bits Vector.out_vec p "obs"
        (add_bits Vector.in_vec p "drive_val" (add_bits Vector.in_vec p "drive_en" l))
    else add_bits (vector_of p) p "" l

unfoldable pub build_from : Bool → List PortSpec → List String → Layout → Result SpecError Layout
unfolding check_port add_from
build_from raw [] seen l = ok l
build_from raw (p ∷ ps) seen l = do
  check_port raw p seen
  build_from raw ps (p.name ∷ seen) (add_port p l)

abbrev pub empty_layout : Layout
empty_layout = record { bits = []; n = λ v. 0 }

abbrev pub map_of : DutSpec → Layout → DutMap
map_of spec l = record {
  prim = spec.prim;
  family = spec.family;
  cfg = spec.cfg;
  attrs = spec.attrs;
  nclk = l.n Vector.clk_vec;
  nin = l.n Vector.in_vec;
  nout = l.n Vector.out_vec;
  bits = l.bits;
  min_event_gap_ps = spec.min_event_gap_ps;
}

unfoldable pub build_map : DutSpec → Result SpecError DutMap
unfolding build_from
build_map spec = do l ← build_from spec.raw_clock_out spec.ports [] empty_layout; ok (map_of spec l)
