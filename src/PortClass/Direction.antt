-- ===== src/PortClass/Direction.antt =====
-- The default class of a port fits its direction.
use xilinx_unittests.Prelude.{
  String, Bool, true, false, not, ◌&&◌, ◌||◌, [], ◌∷◌, if◌then◌else◌, str_eq, ◌≡◌, refl, inl, inr,
  Bool-cases,
}
use xilinx_unittests.PortClass.{
  PortClass, input_class, output_class, default_class, starts_with, is_one_of, is_on, pad_on,
  drp_prefixes, drps, gate_on, clocks, not_clock_on, is_buf, asyncs, async_on, rst_async_prefixes,
  clock_out_on,
}

-- The classes that an input and an output can have: an input is driven, so it is no clock output, and an
-- output is no clock, async, gate or inout port.
abbrev pub is_input_class : PortClass → Bool
is_input_class PortClass.clock_out = false
is_input_class PortClass.inout = false
is_input_class _ = true

abbrev pub is_output_class : PortClass → Bool
is_output_class PortClass.clock = false
is_output_class PortClass.async = false
is_output_class PortClass.gate = false
is_output_class PortClass.inout = false
is_output_class _ = true

input_tests :
    (a b c d e f g h : Bool)
    → is_input_class (
        if a
        then PortClass.pad
        else if b
        then PortClass.drp
        else if c
        then PortClass.gate
        else if d
        then PortClass.clock
        else if e
        then PortClass.clock
        else if f
        then PortClass.clock
        else if g
        then PortClass.async
        else if h
        then PortClass.async
        else PortClass.plain)
      ≡ true
input_tests true b c d e f g h = refl
input_tests false true c d e f g h = refl
input_tests false false true d e f g h = refl
input_tests false false false true e f g h = refl
input_tests false false false false true f g h = refl
input_tests false false false false false true g h = refl
input_tests false false false false false false true h = refl
input_tests false false false false false false false true = refl
input_tests false false false false false false false false = refl

output_tests :
    (a b c d : Bool)
    → is_output_class (
        if a
        then PortClass.pad
        else if b
        then PortClass.drp
        else if c
        then PortClass.clock_out
        else if d
        then PortClass.clock_out
        else PortClass.plain)
      ≡ true
output_tests true b c d = refl
output_tests false true c d = refl
output_tests false false true d = refl
output_tests false false false true = refl
output_tests false false false false = refl

input_class-fits : (prim port : String) → is_input_class (input_class prim port) ≡ true
unfolding input_class
input_class-fits prim port =
    input_tests
      (starts_with prim ("IBUF" ∷ []) && is_one_of port ("I" ∷ "IB" ∷ []) || is_on pad_on prim port)
      (starts_with prim drp_prefixes && is_one_of port drps) (is_on gate_on prim port)
      (is_one_of port clocks && not (is_on not_clock_on prim port))
      (is_one_of port ("I0" ∷ "I1" ∷ []) && starts_with prim ("BUFGCTRL" ∷ "BUFGMUX" ∷ []))
      (str_eq port "I" && is_buf prim) (is_one_of port asyncs || is_on async_on prim port)
      (str_eq port "RST" && starts_with prim rst_async_prefixes)

output_class-fits : (prim port : String) → is_output_class (output_class prim port) ≡ true
unfolding output_class
output_class-fits prim port =
    output_tests (starts_with prim ("OBUF" ∷ []) && is_one_of port ("O" ∷ "OB" ∷ []))
      (starts_with prim drp_prefixes && is_one_of port drps)
      (starts_with port ("CLKOUT" ∷ "CLKFBOUT" ∷ []) || is_on clock_out_on prim port)
      (str_eq port "O" && is_buf prim)

abbrev pub is_inout_class : PortClass → Bool
is_inout_class PortClass.inout = true
is_inout_class _ = false

-- The class is one that a port of that direction can have.
abbrev pub fits : String → PortClass → Bool
fits direction c =
    if str_eq direction "inout"
    then is_inout_class c
    else if str_eq direction "input"
    then is_input_class c
    else is_output_class c

-- For every primitive and port: a port whose direction is inout has the class inout; one whose direction is
-- input has not the class clock_out or inout; and one of any other direction has not the class clock, async,
-- gate or inout.
pub default_class-fits :
    (prim port direction : String) → fits direction (default_class prim port direction) ≡ true
unfolding default_class
default_class-fits prim port direction = elim (Bool-cases (str_eq direction "inout")) [
  | inl q ↦ rw q refl
  | inr q ↦ elim (Bool-cases (str_eq direction "input")) [
    | inl k ↦ rw (q, k) (input_class-fits prim port)
    | inr k ↦ rw (q, k) (output_class-fits prim port)
  ]
]
