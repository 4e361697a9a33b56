-- ===== src/Golden/Ports.antt =====
-- What a replay reads of a stimulus and a wrapper: the events, the bits of a port and its value, the names and
-- widths of the ports.
use xilinx_unittests.Prelude.{
  ℕ, zero, suc, ◌+◌, ◌-◌, ◌*◌, String, Bool, true, false, not, ◌&&◌, ◌||◌, ◌==◌, leb, if◌then◌else◌,
  str_eq, Option, none, some, List, [], ◌∷◌, ◌++◌, length, get_elem?, map, all, reverse, Result, ok,
  err, ◌>>=◌, ◌>>◌, refuse, map_err,
}
use xilinx_unittests.Names.{Chars}
use xilinx_unittests.Xvec.{Name, Event, Vec, is_set}
use xilinx_unittests.Xvec.FreeClocks.{sort_events, free_clock_edges, is_start, is_stop}
use xilinx_unittests.Dut.{Bit, DutMap, Vector, of, port_bits, in_ports, contains}
use xilinx_unittests.Xtr.{XtrError}
use xilinx_unittests.Validate.Groups.{KeyError}
use xilinx_unittests.Golden.Model.{Out, Fault}

-- What a method raises, and what `trace.add` raises, as the replay's.
abbrev pub from_model : {R A : Type 0} → Result R A → Result (Fault R) A
from_model r = map_err Fault.model r

abbrev pub from_trace : {R A : Type 0} → Result XtrError A → Result (Fault R) A
from_trace r = map_err Fault.trace r

abbrev pub from_validate : {R A : Type 0} → Result KeyError A → Result (Fault R) A
from_validate r = map_err Fault.key_error r

-- `expand_free_clocks`
abbrev pub is_replayed : Event → Bool
is_replayed e = not (is_start e.op || is_stop e.op)

abbrev pub replayed : List Event → List Event
replayed [] = []
replayed (e ∷ es) = let rest = replayed es in if is_replayed e then e ∷ rest else rest

unfoldable pub expand_free_clocks : Vec → List Event
expand_free_clocks v = sort_events (replayed v.events ++ free_clock_edges v)

-- `int(s, 2)`
abbrev pub binary_value : ℕ → Chars → ℕ
binary_value n [] = n
binary_value n (c ∷ s) = binary_value (2 * n + (c - b'0')) s

abbrev pub is_bit : ℕ → Bool
is_bit c = c == b'0' || c == b'1'

module _ {R : Type 0} where
  -- `bits[b.bit]` for each bit.
  unfoldable pub bits_at : Chars → List Bit → Result (Fault R) Chars
  bits_at bits [] = ok []
  bits_at bits (b ∷ bs) = do
    c ← elim (get_elem? bits b.bit) [ none ↦ err Fault.no_bit | some c ↦ ok c ]
    cs ← bits_at bits bs
    ok (c ∷ cs)

  -- `_port_bits`: the value of a port, MSB first.
  unfoldable pub port_text : DutMap → Chars → String → Result (Fault R) Chars
  unfolding bits_at
  port_text m bits p = bits_at bits (reverse (port_bits m Vector.in_vec p ""))

  -- `_port_value`
  unfoldable pub port_value : DutMap → Chars → String → Result (Fault R) ℕ
  unfolding port_text
  port_value m bits p = do
    s ← port_text m bits p
    refuse (not (all is_bit s)) (Fault.not_two_state p)
    ok (binary_value 0 s)

  -- `bits[k] = c`
  unfoldable pub put_bit : ℕ → ℕ → Chars → Result (Fault R) Chars
  put_bit k c [] = err Fault.no_bit
  put_bit zero c (b ∷ bits) = ok (c ∷ bits)
  put_bit (suc k) c (b ∷ bits) = do rest ← put_bit k c bits; ok (b ∷ rest)

  -- The characters of one `set`, LSB first, from position `k`.
  unfoldable pub put_bits : ℕ → Chars → Chars → Result (Fault R) Chars
  unfolding put_bit
  put_bits k [] bits = ok bits
  put_bits k (c ∷ cs) bits = do next ← put_bit k c bits; put_bits (suc k) cs next

  -- Every `set` of a time step.
  unfoldable pub apply_sets : List Event → Chars → Result (Fault R) Chars
  unfolding put_bits
  apply_sets [] bits = ok bits
  apply_sets (e ∷ es) bits = do next ← put_bits e.lsb (reverse e.value) bits; apply_sets es next

  -- `m.clock_port(e.target)`
  abbrev pub nth_port : List Bit → ℕ → Result (Fault R) String
  nth_port bs k = elim (get_elem? bs k) [ none ↦ err Fault.no_clock | some b ↦ ok b.port ]

  abbrev pub clock_port : DutMap → Name → Result (Fault R) String
  clock_port m (Name.clk k) =
      if leb m.nclk k then err Fault.no_clock else nth_port (of m Vector.clk_vec) k
  clock_port m _ = err Fault.no_clock

  -- `int(e.value)`, which the structure check holds to 0 or 1, and the name of a global signal.
  abbrev pub signal_value : Chars → Result (Fault R) Bool
  signal_value (c ∷ []) =
      if c == b'0' then ok false else if c == b'1' then ok true else err Fault.bad_value
  signal_value _ = err Fault.bad_value

  abbrev pub signal_name : Name → Result (Fault R) String
  signal_name (Name.word s) = ok s
  signal_name _ = err Fault.bad_value

abbrev pub sets : List Event → List Event
sets [] = []
sets (e ∷ es) = let rest = sets es in if is_set e.op then e ∷ rest else rest

-- A lookup in a dictionary of widths, and equality of two such dictionaries.
abbrev pub width_of : String → List (String × ℕ) → Option ℕ
width_of p [] = none
width_of p ((q, n) ∷ d) = if str_eq q p then some n else width_of p d

abbrev pub has_width : List (String × ℕ) → String × ℕ → Bool
has_width d p = elim (width_of p.0 d) [ none ↦ false | some n ↦ n == p.1 ]

abbrev pub same_widths : List (String × ℕ) → List (String × ℕ) → Bool
same_widths c d = all (has_width d) c && all (has_width c) d

-- The input ports of the map, and its clocks, with their widths.
abbrev pub widths : DutMap → List (String × ℕ)
widths m =
    map (λ (b : Bit). (b.port, 1)) (of m Vector.clk_vec)
    ++ map (λ p. (p, length (port_bits m Vector.in_vec p ""))) (in_ports m)

abbrev pub named_output : List (String × ℕ) → String × Out → Bool
named_output declared o = contains o.0 (map (λ d. d.0) declared)

abbrev pub right_width : List (String × ℕ) → String × Out → Bool
right_width declared o = has_width declared (o.0, length o.1.bits)
