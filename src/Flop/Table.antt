-- ===== src/Flop/Table.antt =====
-- The logic tables of UG953 for the four flip-flops, level by level, with no provenance and no
-- claims: what the golden model is compared with.
use xilinx_unittests.Prelude.{Bool, ◌&&◌, xor, if◌then◌else◌}
use xilinx_unittests.Flop.{Flop, Pins, Port, set_pin}

-- The configuration of one instance, and what its output depends on.
pub record Config : Type 0 where
  pub ctrl_value : Bool
  pub ctrl_async : Bool
  pub init : Bool
  pub inv_c : Bool
  pub inv_d : Bool
  pub inv_ctrl : Bool

pub record Row : Type 0 where
  pub pin : Pins
  pub gsr : Bool
  pub value : Bool

-- The stimulus at the pins of a powered primitive.
pub data Event : Type 0 where
  drive : Port → Bool → Event
  edge : Bool → Event
  gsr : Bool → Event

module _ (k : Config) where
  abbrev pub asserted : Pins → Bool
  asserted p = xor p.ctrl k.inv_ctrl

  -- An asynchronous control overrides all other inputs, and GSR places INIT.
  abbrev pub level : Row → Row
  level s =
      if k.ctrl_async && asserted s.pin
      then record s { value = k.ctrl_value }
      else if s.gsr
      then record s { value = k.init }
      else s

  -- The active edge: the control first, then the clock enable, then the data.
  abbrev pub clocked : Row → Row
  clocked s =
      if asserted s.pin
      then record s { value = k.ctrl_value }
      else if s.pin.ce
      then record s { value = xor s.pin.d k.inv_d }
      else s

  abbrev pub react : Event → Row → Row
  react (drive p v) s = level (record s { pin = set_pin p v s.pin })
  react (gsr v) s = level (record s { gsr = v })
  react (edge r) s = level (if xor r k.inv_c then clocked s else s)

abbrev pub config : Flop → Config
config f = record {
  ctrl_value = f.kind.ctrl_value;
  ctrl_async = f.kind.ctrl_async;
  init = f.init;
  inv_c = f.inv_c;
  inv_d = f.inv_d;
  inv_ctrl = f.inv_ctrl;
}

abbrev pub row : Flop → Row
row f = record { pin = f.pin; gsr = f.gsr; value = f.q.bits }
