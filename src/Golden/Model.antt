-- ===== src/Golden/Model.antt =====
-- The API of a golden model, models/xut_models/base.py, and what `replay` of tools/xut/golden.py raises.
use xilinx_unittests.Prelude.{ℕ, String, Bool, List, Result}
use xilinx_unittests.Names.{Chars}
use xilinx_unittests.Xtr.{XtrError}
use xilinx_unittests.Xtr.Prov.{Prov}
use xilinx_unittests.Validate.Report.{Problem}
use xilinx_unittests.Validate.Groups.{KeyError}
use xilinx_unittests.Dut.{WrapError}

pub record Out : Type 0 where
  pub bits : Chars
  pub prov : Prov

-- A subclass of `Model`: its class variables, its constructor and its methods, which return the new object or
-- what they raise.
pub record ModelClass : Type 1 where
  pub State : Type 0
  pub Raised : Type 0
  pub prim : String
  pub output_widths : List (String × ℕ)
  pub inputs : List (String × ℕ)
  pub create : List (String × String) → Result Raised State
  pub power_on : State → State
  pub set_input : String → ℕ → State → Result Raised State
  pub clock_edge : String → Bool → State → Result Raised State
  pub glbl : String → Bool → State → Result Raised State
  pub outputs : State → Result Raised (List (String × Out))

pub data Fault (R : Type 0) : Type 0 where
  simultaneous_events : List ℕ → Fault R
  invalid : List Problem → Fault R
  key_error : KeyError → Fault R
  prim_mismatch size_mismatch inputs_mismatch outputs_mismatch width_mismatch : Fault R
  not_two_state : String → Fault R
  no_clock no_bit bad_value : Fault R
  model : R → Fault R
  wrap : WrapError → Fault R
  trace : XtrError → Fault R
