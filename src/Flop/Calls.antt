-- ===== src/Flop/Calls.antt =====
-- A sequence of calls of the model's API, as `replay` of tools/xut/golden.py makes them: which
-- calls are refused, and what no call changes.
use xilinx_unittests.Prelude.{ℕ, String, Bool, List, [], ◌∷◌, Result, ok, ◌>>=◌, ◌≡◌, arith}
use xilinx_unittests.Flop as Model
use xilinx_unittests.Flop.{Flop, Kind, Fault, Port, port_of, drive, edge, set_gsr}

pub data Call : Type 0 where
  set_input : String → ℕ → Call
  clock_edge : String → Bool → Call
  glbl : String → Bool → Call

unfoldable pub apply : Call → Flop → Result Fault Flop
apply (set_input p v) f = Model.set_input p v f
apply (clock_edge p r) f = Model.clock_edge p r f
apply (glbl s v) f = Model.glbl s v f

unfoldable pub run : List Call → Flop → Result Fault Flop
run [] f = ok f
run (x ∷ xs) f = apply x f >>= run xs

-- The configuration and the power state, which no call changes.
pub record SameConfig (f g : Flop) : Type 0 where
  pub kind : g.kind ≡ f.kind
  pub init : g.init ≡ f.init
  pub inv_c : g.inv_c ≡ f.inv_c
  pub inv_d : g.inv_d ≡ f.inv_d
  pub inv_ctrl : g.inv_ctrl ≡ f.inv_ctrl
  pub powered_on : g.powered_on ≡ f.powered_on

pub drive-SameConfig : (p : Port) (v : Bool) (f : Flop) → SameConfig f (drive p v f)
unfolding drive
drive-SameConfig Port.ctrl v f = ground arith
drive-SameConfig _ v f = ground arith

pub edge-SameConfig : (r : Bool) (f : Flop) → SameConfig f (edge r f)
unfolding edge
edge-SameConfig r f = ground arith

pub set_gsr-SameConfig : (v : Bool) (f : Flop) → SameConfig f (set_gsr v f)
unfolding set_gsr
set_gsr-SameConfig v f = ground arith
