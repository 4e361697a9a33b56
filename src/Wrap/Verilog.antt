-- ===== src/Wrap/Verilog.antt =====
-- `render_wrapper` and `_slice` of tools/xut/wrap.py: the Verilog of a wrapper from its spec and its map. Of
-- the text, what depends on them is kept: widths, assignments, connections and parameters.
use xilinx_unittests.Prelude.{
  ℕ, suc, ◌==◌, max, String, Bool, true, not, ◌&&◌, if◌then◌else◌, str_eq, List, [], ◌∷◌, ◌++◌,
  length, map, reverse, Result, ok, err, ◌>>=◌, ◌>>◌, refuse,
}
use xilinx_unittests.Dut.{Vector, Bit, DutMap, port_bits}
use xilinx_unittests.Wrap.{PortSpec, DutSpec, vector_of}

-- `one` bit, the `range` of a high and a low bit, or `each` bit, the highest first.
pub data Slice : Type 0 where
  one : ℕ → Slice
  range : ℕ → ℕ → Slice
  each : List ℕ → Slice

pub data RenderError : Type 0 where
  no_match empty_slice : RenderError

-- `idx == list(range(k, idx[-1] + 1))`, of a list that begins with k.
abbrev pub is_range : ℕ → List ℕ → Bool
is_range k [] = true
is_range k (i ∷ is) = i == k && is_range (suc k) is

abbrev pub last_of : ℕ → List ℕ → ℕ
last_of i [] = i
last_of i (j ∷ is) = last_of j is

-- `_slice`; an IndexError where there is no bit.
unfoldable pub slice : List ℕ → Result RenderError Slice
slice [] = err empty_slice
slice (i ∷ []) = ok (one i)
slice (i ∷ j ∷ is) =
    if is_range i (i ∷ j ∷ is)
    then ok (range (last_of j is) i)
    else ok (each (reverse (i ∷ j ∷ is)))

-- A line of the body: the net of a bidirectional port, its drive by two bits of `in_vec`, and its reading.
pub data Line : Type 0 where
  net : String → ℕ → Line
  drives : String → ℕ → ℕ → ℕ → Line
  observe : String → ℕ → ℕ → Line

pub data Connection : Type 0 where
  to_net : String → Connection
  to_slice : String → Vector → Slice → Connection

abbrev pub io_lines : String → ℕ → List Bit → List Bit → List Bit → List Line
io_lines p i (e ∷ en) (d ∷ val) (o ∷ obs) =
    drives p i e.bit d.bit ∷ observe p i o.bit ∷ io_lines p (suc i) en val obs
io_lines p i en val obs = []

abbrev pub positions_of : List Bit → List ℕ
positions_of bs = map (λ b. b.bit) bs

abbrev pub indexes_of : List Bit → List ℕ
indexes_of bs = map (λ b. b.index) bs

-- `idx == list(range(n))`
abbrev pub is_all : ℕ → List ℕ → Bool
is_all n is = length is == n && is_range 0 is

abbrev pub inout_lines :
    PortSpec → List Bit → List Bit → List Bit → Result RenderError (List Line × Connection)
inout_lines p en val obs = do
  refuse (not (length en == length val && length val == length obs && length obs == p.width))
      no_match
  ok (net p.name p.width ∷ io_lines p.name 0 en val obs, to_net p.name)

abbrev pub plain_lines : PortSpec → Vector → List Bit → Result RenderError (List Line × Connection)
plain_lines p v bs = do
  refuse (not (is_all p.width (indexes_of bs))) no_match
  s ← slice (positions_of bs)
  ok ([], to_slice p.name v s)

-- The body of the loop over the ports.
unfoldable pub port_lines : DutMap → PortSpec → Result RenderError (List Line × Connection)
unfolding slice port_bits
port_lines m p =
    if str_eq p.direction "inout"
    then inout_lines p (port_bits m Vector.in_vec p.name "drive_en")
        (port_bits m Vector.in_vec p.name "drive_val") (port_bits m Vector.out_vec p.name "obs")
    else plain_lines p (vector_of p) (port_bits m (vector_of p) p.name "")

unfoldable pub all_lines : DutMap → List PortSpec → Result RenderError (List Line × List Connection)
unfolding port_lines
all_lines m [] = ok ([], [])
all_lines m (p ∷ ps) = do
  here ← port_lines m p
  rest ← all_lines m ps
  ok (here.0 ++ rest.0, here.1 ∷ rest.1)

-- The module: the widths of its vectors, at least 1, whether it drives `out_vec` with 0, and its instance.
pub record Wrapper : Type 0 where
  pub clk_width : ℕ
  pub in_width : ℕ
  pub out_width : ℕ
  pub lines : List Line
  pub has_zero_out : Bool
  pub prim : String
  pub attrs : List (String × String)
  pub connections : List Connection

abbrev pub wrapper_of : DutSpec → DutMap → List Line × List Connection → Wrapper
wrapper_of spec m body = record {
  clk_width = max 1 m.nclk;
  in_width = max 1 m.nin;
  out_width = max 1 m.nout;
  lines = body.0;
  has_zero_out = m.nout == 0;
  prim = spec.prim;
  attrs = spec.attrs;
  connections = body.1;
}

unfoldable pub render_wrapper : DutSpec → DutMap → Result RenderError Wrapper
unfolding all_lines
render_wrapper spec m = do body ← all_lines m spec.ports; ok (wrapper_of spec m body)
