-- ===== src/Flop/Tests.antt =====
-- Concrete runs of the flip-flop models, and the theorems at them.
use xilinx_unittests.Prelude.{true, false, ◌≡◌, ◌⊎◌, refl, none, some, List, [], ◌∷◌, map, ok, err}
use xilinx_unittests.Flop.{
  Flop, Port, Attrs, Fault, fdce, fdre, new, power_on, drive, edge, set_gsr, port_of, set_input,
  clock_edge, glbl,
}
use xilinx_unittests.Flop.Table.{Event, config, row}
use xilinx_unittests.Flop.Calls.{Call, apply, run}
use xilinx_unittests.Flop.Refines.{table_run, shown, shown-run, power_on-IsSettled}
use xilinx_unittests.Flop.Order.{drive_comm}
use xilinx_unittests.Flop.Credit.{act, IsDocumented, act-credit, IsCredited, run-IsCredited}
use xilinx_unittests.Flop.Inversion.{invert_clock, swap_edge, shown-swap_edge}

abbrev defaults : Attrs
defaults = record {
  init = none;
  is_c_inverted = none;
  is_d_inverted = none;
  is_ctrl_inverted = none;
}

-- An FDCE after power-on, its control pin driven Low.
abbrev fresh_flop : Flop
fresh_flop = drive Port.ctrl false (power_on (new fdce defaults))

abbrev capture_one : List Call
capture_one =
    Call.glbl "GSR" false
    ∷ Call.set_input "D" 1
    ∷ Call.set_input "CE" 1
    ∷ Call.clock_edge "C" true
    ∷ []

captures : (run capture_one fresh_flop ≡ ok fresh_flop) → ⊥
unfolding run apply set_input clock_edge glbl port_of drive edge set_gsr power_on new fdce
captures h = cc

captured :
    shown (run capture_one fresh_flop)
    ≡ some (record {
      pin = record { c = false; ce = true; d = true; ctrl = false };
      gsr = false;
      value = true;
    })
unfolding run apply set_input clock_edge glbl port_of drive edge set_gsr power_on new fdce
captured = refl

unknown_port : run (Call.set_input "R" 0 ∷ []) fresh_flop ≡ err Fault.not_an_input
unfolding run apply set_input port_of drive power_on new fdce
unknown_port = refl

fresh_flop-on : fresh_flop.powered_on ≡ true
unfolding drive power_on new fdce
fresh_flop-on = refl

shown-run_example :
    shown (run capture_one fresh_flop)
    ≡ table_run fresh_flop.kind (config fresh_flop) capture_one (row fresh_flop)
shown-run_example =
    shown-run capture_one fresh_flop fresh_flop-on (power_on-IsSettled false (new fdce defaults))

drive_comm_example :
    drive Port.ctrl true (drive Port.d true fresh_flop)
    ≡ drive Port.d true (drive Port.ctrl true fresh_flop)
drive_comm_example = drive_comm Port.ctrl Port.d true true fresh_flop (λ e. cc)

act-credit_example :
    ((act (Event.gsr false) fresh_flop).claims ≡ fresh_flop.claims)
    ⊎ (IsDocumented (act (Event.gsr false) fresh_flop).q.prov)
    ⊎ (((act (Event.gsr false) fresh_flop).q ≡ fresh_flop.q) × (fresh_flop.pin.ce ≡ false))
act-credit_example = act-credit (Event.gsr false) fresh_flop

abbrev one_call : List Call
one_call = Call.set_input "R" 0 ∷ []

run-IsCredited_example : IsCredited (drive Port.ctrl false (power_on (new fdre defaults)))
unfolding run apply set_input port_of power_on new fdre
run-IsCredited_example =
    run-IsCredited fdre defaults one_call (drive Port.ctrl false (power_on (new fdre defaults)))
      refl

shown-swap_edge_example :
    shown (run (map swap_edge capture_one) (invert_clock fresh_flop))
    ≡ shown (run capture_one fresh_flop)
shown-swap_edge_example =
    shown-swap_edge capture_one fresh_flop fresh_flop-on
      (power_on-IsSettled false (new fdce defaults))
