-- ===== src/Validate/Report.antt =====
-- The report of tools/xut/validate.py, as what each rule appends to it, and the rules on the whole file:
-- `_check_header`, `_check_map_hw`, `_check_reject`.
use Prim.Native.String.{compare}
use text.Mathlib.Text.{is_lt}
use xilinx_unittests.Prelude.{
  ℕ, String, Bool, true, false, not, ◌&&◌, ◌||◌, ◌==◌, ltb, if◌then◌else◌, str_eq, Option, none,
  some, List, [], ◌∷◌, ◌++◌, any,
}
use xilinx_unittests.Xvec.{Name, Clock, Event, Header, Vec, Error, is_free}
use xilinx_unittests.Dut.{Bit, DutMap, distinct_from}
use xilinx_unittests.Validate.{Reason, min_settle_ps}
use xilinx_unittests.Validate.Races.{RaceError}

pub data Problem : Type 0 where
  structure : Error → Problem
  no_round_trip : Problem
  wrong_nin wrong_nout wrong_nclk wrong_prim wrong_cfg settle_too_short sep_too_small : Problem
  wrong_attr : String → Problem
  race : RaceError → Problem
  unnamed_illegal stray_illegal no_samples : Problem
  illegal_not_set : String → Problem
  clock_bit_set sample_with_change : ℕ → Problem
  sample_too_soon : ℕ → Name → ℕ → Problem
  mixed_line : ℕ → Event → ℕ → ℕ → Problem
  not_alone : ℕ → List Event → Problem
  edge_on_free no_alternation : ℕ → Name → Problem
  close_to_edge : ℕ → Bool → ℕ → Problem

pub record Report : Type 0 where
  pub errors : List Problem
  pub hw_reasons : List Reason
  pub x_inputs : Bool

abbrev pub nothing : Report
nothing = record { errors = []; hw_reasons = []; x_inputs = false }

infixl 20 ◌⊕◌
abbrev pub ◌⊕◌ : Report → Report → Report
r ⊕ s = record {
  errors = r.errors ++ s.errors;
  hw_reasons = r.hw_reasons ++ s.hw_reasons;
  x_inputs = r.x_inputs || s.x_inputs;
}

abbrev pub problems : List Problem → Report
problems es = record { errors = es; hw_reasons = []; x_inputs = false }

abbrev pub problem_if : Bool → Problem → Report
problem_if b p = problems (if b then p ∷ [] else [])

abbrev pub reasons : List Reason → Report
reasons rs = record { errors = []; hw_reasons = rs; x_inputs = false }

abbrev pub reason_if : Bool → Reason → Report
reason_if b r = reasons (if b then r ∷ [] else [])

abbrev pub is_nil {ℓ} : {A : Type ℓ} → List A → Bool
is_nil [] = true
is_nil (x ∷ xs) = false

-- `Report.ok` and `Report.hw_renderable`
abbrev pub passes : Report → Bool
passes r = is_nil r.errors

abbrev pub is_renderable : Report → Bool
is_renderable r = is_nil r.errors && is_nil r.hw_reasons

-- `d.get(k)`
abbrev pub value_of : String → List (String × String) → Option String
value_of k [] = none
value_of k ((j, v) ∷ d) = if str_eq j k then some v else value_of k d

abbrev pub same_value : Option String → Option String → Bool
same_value none none = true
same_value (some a) (some b) = str_eq a b
same_value _ _ = false

-- `sorted(a.keys() | b.keys())`, over the keys of both.
unfoldable pub insert_key : String → List String → List String
insert_key k [] = k ∷ []
insert_key k (j ∷ js) =
    if str_eq k j then j ∷ js else if is_lt (compare k j) then k ∷ j ∷ js else j ∷ insert_key k js

unfoldable pub sorted_keys : List (String × String) → List String
unfolding insert_key
sorted_keys [] = []
sorted_keys ((k, v) ∷ d) = insert_key k (sorted_keys d)

abbrev pub attr_problems :
    List (String × String) → List (String × String) → List String → List Problem
attr_problems have want [] = []
attr_problems have want (k ∷ ks) =
    (if same_value (value_of k have) (value_of k want) then [] else wrong_attr k ∷ [])
    ++ attr_problems have want ks

-- `_check_header`
unfoldable pub check_header : Header → DutMap → Report
unfolding sorted_keys
check_header h m =
    problem_if (not (h.nin == m.nin)) wrong_nin
    ⊕ problem_if (not (h.nout == m.nout)) wrong_nout
    ⊕ problem_if (not (h.nclk == m.nclk)) wrong_nclk
    ⊕ problem_if (not (str_eq h.prim m.prim)) wrong_prim
    ⊕ problem_if (not (str_eq h.cfg m.cfg)) wrong_cfg
    ⊕ problems (attr_problems h.attrs m.attrs (sorted_keys (h.attrs ++ m.attrs)))
    ⊕ problem_if (ltb h.settle_ps min_settle_ps) settle_too_short

abbrev pub pad_ports : List Bit → List String
pad_ports [] = []
pad_ports (b ∷ bs) =
    let rest = pad_ports bs in
    if str_eq b.cls "pad" || str_eq b.cls "inout" || not (str_eq b.role "")
    then b.port ∷ rest
    else rest

abbrev pub free_names : List Clock → List Name
free_names [] = []
free_names (c ∷ cs) = let rest = free_names cs in if is_free c.mode then c.name ∷ rest else rest

-- `_check_map_hw`
unfoldable pub check_map_hw : Vec → DutMap → Report
check_map_hw v m =
    let pads = pad_ports m.bits in
    let free = free_names v.clocks in
    reason_if (not (is_nil pads)) (Reason.needs_pad_harness (distinct_from [] pads))
    ⊕ reason_if (not (is_nil free)) (Reason.free_clocks free)

abbrev pub is_reject : Option String → Bool
is_reject none = false
is_reject (some s) = str_eq s "reject"

abbrev pub named : Option (List String) → List String
named none = []
named (some ns) = ns

abbrev pub is_given : Option (List String) → Bool
is_given none = false
is_given (some ns) = true

abbrev pub illegal_problems : List (String × String) → List String → List Problem
illegal_problems attrs [] = []
illegal_problems attrs (n ∷ ns) =
    (if any (λ a. str_eq a.0 n) attrs then [] else illegal_not_set n ∷ [])
    ++ illegal_problems attrs ns

-- `_check_reject`
unfoldable pub check_reject : Header → Report
check_reject h =
    if is_reject h.expect
    then problem_if (is_nil (named h.illegal)) unnamed_illegal
      ⊕ problems (illegal_problems h.attrs (named h.illegal))
    else problem_if (is_given h.illegal) stray_illegal
