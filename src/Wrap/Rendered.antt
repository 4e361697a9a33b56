-- ===== src/Wrap/Rendered.antt =====
-- The wrapper of a map that `build_map` made: it is rendered, and its connections are contiguous.
use xilinx_unittests.Prelude.{
  ℕ, zero, suc, ◌+◌, ==_iff, ◌≤◌, String, Bool, true, false, str_eq, if◌then◌else◌, ◌≡◌, refl, ap,
  arith, List, [], ◌∷◌, ◌++◌, length, Result, ok,
}
use xilinx_unittests.Dut.{Vector, DutMap, port_bits}
use xilinx_unittests.Wrap.{PortSpec, DutSpec, vector_of, build_map}
use xilinx_unittests.Wrap.Runs.{bits_run}
use xilinx_unittests.Wrap.Wiring.{IsWired, AreWired, after, build_map-IsWired}
use xilinx_unittests.Wrap.Verilog.{
  Slice, RenderError, is_range, last_of, slice, Line, Connection, io_lines, positions_of,
  indexes_of, inout_lines, plain_lines, port_lines, all_lines, Wrapper, wrapper_of, render_wrapper,
}

-- The bits of a run, and those of its port.
module _ (v : Vector) (p : PortSpec) (role : String) where
  run-length : (k i left : ℕ) → length (bits_run v k p role i left) ≡ left
  run-length k i zero = refl
  run-length k i (suc left) = ap suc (run-length (suc k) (suc i) left)

  indexes-length : (k i left : ℕ) → length (indexes_of (bits_run v k p role i left)) ≡ left
  indexes-length k i zero = refl
  indexes-length k i (suc left) = ap suc (indexes-length (suc k) (suc i) left)

  indexes-range : (k i left : ℕ) → is_range i (indexes_of (bits_run v k p role i left)) ≡ true
  indexes-range k i zero = refl
  indexes-range k i (suc left) = rw (indexes-range (suc k) (suc i) left) (ground arith)

  bits-range : (k i left : ℕ) → is_range k (positions_of (bits_run v k p role i left)) ≡ true
  bits-range k i zero = refl
  bits-range k i (suc left) = rw (bits-range (suc k) (suc i) left) (ground arith)

  bits-last :
      (k i left : ℕ) → last_of k (positions_of (bits_run v (suc k) p role i left)) ≡ k + left
  bits-last k i zero = omega arith
  bits-last k i (suc left) = omega (arith, bits-last (suc k) (suc i) left)

-- So many bits from a bit on, one after the other.
abbrev pub IsFrom : ℕ → ℕ → Slice → Type 0
IsFrom first width (Slice.one k) = (k ≡ first) × (width ≡ 1)
IsFrom first width (Slice.range high low) = (low ≡ first) × (high + 1 ≡ first + width)
IsFrom first width (Slice.each ks) = ⊥

slice-IsFrom :
    (v : Vector) (k : ℕ) (p : PortSpec) (role : String) (width : ℕ)
    → 1 ≤ width
    → (s : Slice) × (slice (positions_of (bits_run v k p role 0 width)) ≡ ok s) × IsFrom k width s
unfolding slice
slice-IsFrom v k p role zero h = absurd (omega (arith, h))
slice-IsFrom v k p role (suc zero) h = (Slice.one k, refl, (refl, refl))
slice-IsFrom v k p role (suc (suc width)) h =
    let last = bits-last v p role (suc k) 2 width in
    (
      Slice.range (last_of (suc k) (positions_of (bits_run v (suc (suc k)) p role 2 width))) k,
      rw (bits-range v p role k 0 (suc (suc width))) refl,
      (refl, omega (arith, last)),
    )

-- The assignments to and from the net of a bidirectional port, bit by bit from the first of each.
abbrev pub assigned : String → ℕ → ℕ → ℕ → ℕ → ℕ → List Line
assigned name i en val obs zero = []
assigned name i en val obs (suc left) =
    Line.drives name i en val
    ∷ Line.observe name i obs
    ∷ assigned name (suc i) (suc en) (suc val) (suc obs) left

-- The lines of a port, where `n` of each vector are taken before it: only a bidirectional one has some, its net
-- and the assignments of its bits.
abbrev pub lines_of : (Vector → ℕ) → PortSpec → List Line
lines_of n p =
    if str_eq p.direction "inout"
    then Line.net p.name p.width
      ∷ assigned p.name 0 (n Vector.in_vec) (n Vector.in_vec + p.width) (n Vector.out_vec) p.width
    else []

abbrev pub all_lines_of : (Vector → ℕ) → List PortSpec → List Line
all_lines_of n [] = []
all_lines_of n (p ∷ ps) = lines_of n p ++ all_lines_of (after p n) ps

-- The connection of a port: the net of a bidirectional one, and of any other its bits of its vector, the first
-- that are not taken.
abbrev pub IsJoined : (Vector → ℕ) → PortSpec → Connection → Type 0
IsJoined n p (Connection.to_net name) = (name ≡ p.name) × (str_eq p.direction "inout" ≡ true)
IsJoined n p (Connection.to_slice name v s) =
    (name ≡ p.name)
    × (str_eq p.direction "inout" ≡ false)
    × (v ≡ vector_of p)
    × IsFrom (n v) p.width s

abbrev pub AreJoined : (Vector → ℕ) → List PortSpec → List Connection → Type 0
AreJoined n [] [] = Unit
AreJoined n (p ∷ ps) (c ∷ cs) = IsJoined n p c × AreJoined (after p n) ps cs
AreJoined n _ _ = ⊥

io_lines-assigned :
    (p : PortSpec) (i en val obs left : ℕ)
    → io_lines p.name i
        (bits_run Vector.in_vec en p "drive_en" i left)
        (bits_run Vector.in_vec val p "drive_val" i left)
        (bits_run Vector.out_vec obs p "obs" i left)
      ≡ assigned p.name i en val obs left
io_lines-assigned p i en val obs zero = refl
io_lines-assigned p i en val obs (suc left) =
    ap (λ ls. Line.drives p.name i en val ∷ Line.observe p.name i obs ∷ ls)
      (io_lines-assigned p (suc i) (suc en) (suc val) (suc obs) left)

abbrev Joined : (Vector → ℕ) → PortSpec → Result RenderError (List Line × Connection) → Type 0
Joined n p r =
    (body : List Line × Connection) × (r ≡ ok body) × (body.0 ≡ lines_of n p) × IsJoined n p body.1

inout-Joined :
    (n : Vector → ℕ) (p : PortSpec)
    → str_eq p.direction "inout" ≡ true
    → Joined n p (
        inout_lines p
          (bits_run Vector.in_vec (n Vector.in_vec) p "drive_en" 0 p.width)
          (bits_run Vector.in_vec (n Vector.in_vec + p.width) p "drive_val" 0 p.width)
          (bits_run Vector.out_vec (n Vector.out_vec) p "obs" 0 p.width))
inout-Joined n p h =
    let i = n Vector.in_vec in
    let j = n Vector.in_vec + p.width in
    let k = n Vector.out_vec in
    (
      (
        Line.net p.name p.width
            ∷ io_lines p.name 0 (bits_run Vector.in_vec i p "drive_en" 0 p.width)
                (bits_run Vector.in_vec j p "drive_val" 0 p.width)
                (bits_run Vector.out_vec k p "obs" 0 p.width),
        Connection.to_net p.name,
      ),
      rw
          (
            run-length Vector.in_vec p "drive_en" i 0 p.width,
            run-length Vector.in_vec p "drive_val" j 0 p.width,
            run-length Vector.out_vec p "obs" k 0 p.width,
            (==_iff p.width p.width).1 refl,
          )
          refl,
      rw h (ap (λ ls. Line.net p.name p.width ∷ ls) (io_lines-assigned p 0 i j k p.width)),
      (refl, h),
    )

plain-Joined :
    (n : Vector → ℕ) (p : PortSpec)
    → 1 ≤ p.width
    → str_eq p.direction "inout" ≡ false
    → Joined n p
        (plain_lines p (vector_of p) (bits_run (vector_of p) (n (vector_of p)) p "" 0 p.width))
plain-Joined n p h q =
    let k = n (vector_of p) in
    let (s, made, from_first) = slice-IsFrom (vector_of p) k p "" p.width h in
    (
      ([], Connection.to_slice p.name (vector_of p) s),
      rw
          (
            indexes-length (vector_of p) p "" k 0 p.width,
            (==_iff p.width p.width).1 refl,
            indexes-range (vector_of p) p "" k 0 p.width,
            made,
          )
          refl,
      rw q refl,
      (refl, q, refl, from_first),
    )

port_lines-Joined :
    (m : DutMap) (n : Vector → ℕ) (p : PortSpec) → IsWired m.bits n p → Joined n p (port_lines m p)
unfolding port_lines port_bits
port_lines-Joined m n p w = split (str_eq p.direction "inout") refl
  where
    split : (b : Bool) → str_eq p.direction "inout" ≡ b → Joined n p (port_lines m p)
    split true q =
        let (en, val, obs) = w.inout q in
        let (body, made, own, joined) = inout-Joined n p q in
        (body, rw (q, en, val, obs) made, own, joined)
    split false q =
        let (body, made, own, joined) = plain-Joined n p w.wide q in
        (body, rw (q, w.plain q) made, own, joined)

all_lines-AreJoined :
    (m : DutMap) (ps : List PortSpec) (n : Vector → ℕ)
    → AreWired m.bits n ps
    → (body : List Line × List Connection) × (all_lines m ps ≡ ok body)
      × (body.0 ≡ all_lines_of n ps)
      × AreJoined n ps body.1
unfolding all_lines
all_lines-AreJoined m [] n h = (([], []), refl, refl, tt)
all_lines-AreJoined m (p ∷ ps) n h =
    let (here, made, own, joined) = port_lines-Joined m n p h.0 in
    let (rest, later, others, all_joined) = all_lines-AreJoined m ps (after p n) h.1 in
    (
      (here.0 ++ rest.0, here.1 ∷ rest.1),
      rw (made, later) refl,
      rw (own, others) refl,
      (joined, all_joined),
    )

-- From a spec and the map that was made for it a wrapper is always rendered: the map matches the spec. In it
-- every port of the spec is connected, in order: a bidirectional one to its net, and any other to as many bits
-- of its vector as it is wide, one after the other, from the first that the ports before it leave. The lines
-- are those of the bidirectional ports, in order: the net, and for each of its bits what drives and what
-- observes it, the enables first and then the values in `in_vec`.
pub render_wrapper-AreJoined :
    (spec : DutSpec) (m : DutMap)
    → build_map spec ≡ ok m
    → (w : Wrapper) × (render_wrapper spec m ≡ ok w)
      × (w.lines ≡ all_lines_of (λ v. 0) spec.ports)
      × AreJoined (λ v. 0) spec.ports w.connections
unfolding render_wrapper
render_wrapper-AreJoined spec m h =
    let (body, made, lines, joined) =
      all_lines-AreJoined m spec.ports (λ v. 0) (build_map-IsWired spec m h) in
    (wrapper_of spec m body, rw made refl, lines, joined)
