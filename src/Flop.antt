-- ===== src/Flop.antt =====
-- `SdrFlop` of models/xut_models/7series/_common/flops.py and its four subclasses. A method is a
-- function that returns the new object or what it raises. An attribute or a pin holds 0 or 1 and is
-- a `Bool`; the claims that were hit are one flag for each role of `_CLAIM`.
-- The modules below: sequences of calls (`Calls`), the logic tables of the guide (`Table`), and what
-- the calls do (`Refines`, `Order`, `Credit`, `Inversion`).
pub mod Calls
pub mod Table
pub mod Refines
pub mod Order
pub mod Credit
pub mod Inversion
pub mod Tests
use xilinx_unittests.Prelude.{
  ℕ, String, Bool, true, false, not, ◌&&◌, ◌||◌, xor, ◌==◌, if◌then◌else◌, str_eq, Option, none,
  some, Result, ok, err, ◌>>◌, refuse,
}

-- The class variables of a subclass.
pub record Kind : Type 0 where
  pub prim : String
  pub ctrl : String
  pub ctrl_value : Bool
  pub ctrl_async : Bool
  pub init_default : Bool
  pub page : ℕ
  pub attr_page : ℕ

pub fdce : Kind
fdce = record {
  prim = "FDCE";
  ctrl = "CLR";
  ctrl_value = false;
  ctrl_async = true;
  init_default = false;
  page = 369;
  attr_page = 370;
}

pub fdpe : Kind
fdpe = record {
  prim = "FDPE";
  ctrl = "PRE";
  ctrl_value = true;
  ctrl_async = true;
  init_default = true;
  page = 372;
  attr_page = 373;
}

unfoldable pub fdre : Kind
fdre = record {
  prim = "FDRE";
  ctrl = "R";
  ctrl_value = false;
  ctrl_async = false;
  init_default = false;
  page = 375;
  attr_page = 376;
}

pub fdse : Kind
fdse = record {
  prim = "FDSE";
  ctrl = "S";
  ctrl_value = true;
  ctrl_async = false;
  init_default = true;
  page = 378;
  attr_page = 379;
}

-- `_GSR_EDGE`, `_GSR_VS_CTRL` and `_INIT_BEFORE_POWER_ON`.
pub data Reason : Type 0 where
  gsr_edge gsr_vs_ctrl init_before_power_on : Reason

pub data Prov : Type 0 where
  doc : ℕ → Prov
  inferred : Reason → Prov

-- `Out` at one bit.
pub record Out : Type 0 where
  pub bits : Bool
  pub prov : Prov

-- `claims_hit`, a set of claim numbers.
pub record Claims : Type 0 where
  pub capture : Bool
  pub ce_hold : Bool
  pub control : Bool
  pub gsr_init : Bool
  pub inv_c : Bool
  pub inv_ctrl : Bool
  pub inv_d : Bool

pub data Role : Type 0 where
  capture ce_hold control gsr_init inv_c inv_ctrl inv_d : Role

-- The keyword arguments of a configuration, `none` where the attribute is not set.
pub record Attrs : Type 0 where
  pub init : Option Bool
  pub is_c_inverted : Option Bool
  pub is_d_inverted : Option Bool
  pub is_ctrl_inverted : Option Bool

-- `pin`, a dictionary over the keys of `inputs()`.
pub record Pins : Type 0 where
  pub c : Bool
  pub ce : Bool
  pub d : Bool
  pub ctrl : Bool

pub record Flop : Type 0 where
  pub kind : Kind
  pub init : Bool
  pub inv_c : Bool
  pub inv_d : Bool
  pub inv_ctrl : Bool
  pub pin : Pins
  pub gsr : Bool
  pub powered_on : Bool
  pub q : Out
  pub claims : Claims

pub data Port : Type 0 where
  c ce d ctrl : Port

-- `port in self.pin`.
unfoldable pub port_of : Kind → String → Option Port
port_of k p =
    if str_eq p "C"
    then some c
    else if str_eq p "CE"
    then some ce
    else if str_eq p "D"
    then some d
    else if str_eq p k.ctrl
    then some ctrl
    else none

abbrev attr_or : Option Bool → Bool → Bool
attr_or none b = b
attr_or (some a) b = a

abbrev pub no_claims : Claims
no_claims = record {
  capture = false;
  ce_hold = false;
  control = false;
  gsr_init = false;
  inv_c = false;
  inv_ctrl = false;
  inv_d = false;
}

unfoldable pub new : Kind → Attrs → Flop
new k a =
    let init = attr_or a.init k.init_default in
    record {
      kind = k;
      init = init;
      inv_c = attr_or a.is_c_inverted false;
      inv_d = attr_or a.is_d_inverted false;
      inv_ctrl = attr_or a.is_ctrl_inverted false;
      pin = record { c = false; ce = false; d = false; ctrl = false };
      gsr = false;
      powered_on = false;
      q = record { bits = init; prov = inferred init_before_power_on };
      claims = no_claims;
    }

add_claim : Role → Claims → Claims
add_claim capture s = record s { capture = true }
add_claim ce_hold s = record s { ce_hold = true }
add_claim control s = record s { control = true }
add_claim gsr_init s = record s { gsr_init = true }
add_claim inv_c s = record s { inv_c = true }
add_claim inv_ctrl s = record s { inv_ctrl = true }
add_claim inv_d s = record s { inv_d = true }

hit : Role → Flop → Flop
unfolding add_claim
hit r f = record f { claims = add_claim r f.claims }

-- `if test: self._hit(role)`
hit_if : Bool → Role → Flop → Flop
unfolding hit
hit_if b r f = if b then hit r f else f

-- `_doc(bit, page)`; without a page it cites `PAGE`.
out_doc : Flop → Bool → Option ℕ → Out
out_doc f b none = record { bits = b; prov = doc f.kind.page }
out_doc f b (some p) = record { bits = b; prov = doc p }

abbrev pub ctrl_active : Flop → Bool
ctrl_active f = xor f.pin.ctrl f.inv_ctrl

-- `self.q = self._under_gsr()`
pub under_gsr : Flop → Flop
unfolding hit out_doc
under_gsr f =
    if f.kind.ctrl_async && (ctrl_active f && xor f.init f.kind.ctrl_value)
    then record f { q = record { bits = f.kind.ctrl_value; prov = inferred gsr_vs_ctrl } }
    else (let g = hit gsr_init f in record g { q = out_doc g g.init none })

abbrev page_if : Bool → Flop → Option ℕ
page_if attr f = if attr then some f.kind.attr_page else none

pub force : Bool → Flop → Flop
unfolding hit_if hit out_doc
force inverted f =
    let attr = inverted || f.inv_ctrl in
    let g = record f { q = out_doc f f.kind.ctrl_value (page_if attr f) } in
    hit_if f.inv_ctrl inv_ctrl (hit control g)

unfoldable pub power_on : Flop → Flop
unfolding hit out_doc
power_on f =
    let g = hit gsr_init (record f { powered_on = true; gsr = true }) in
    record g { q = out_doc g g.init none }

-- `ModelContractError`, and `ModelUnsupported` for a glbl signal other than GSR.
pub data Fault : Type 0 where
  before_power_on not_an_input not_a_bit not_a_clock unsupported_signal : Fault

-- `glbl` at the signal GSR.
unfoldable pub set_gsr : Bool → Flop → Flop
unfolding under_gsr force
set_gsr value f =
    let g = record f { gsr = value } in
    if value then under_gsr g else if g.kind.ctrl_async && ctrl_active g then force false g else g

unfoldable pub glbl : String → Bool → Flop → Result Fault Flop
glbl signal value f = do
  refuse (not f.powered_on) before_power_on
  refuse (not (str_eq signal "GSR")) unsupported_signal
  ok (set_gsr value f)

abbrev pub set_pin : Port → Bool → Pins → Pins
set_pin c v p = record p { c = v }
set_pin ce v p = record p { ce = v }
set_pin d v p = record p { d = v }
set_pin ctrl v p = record p { ctrl = v }

abbrev pub is_ctrl : Port → Bool
is_ctrl ctrl = true
is_ctrl _ = false

-- `set_input` at a known port and a bit.
unfoldable pub drive : Port → Bool → Flop → Flop
unfolding under_gsr force
drive p v f =
    let g = record f { pin = set_pin p v f.pin } in
    if not (is_ctrl p) || not g.kind.ctrl_async
    then g
    else if g.gsr
    then under_gsr g
    else if ctrl_active g
    then force false g
    else g

-- A bit of the interface is a number.
abbrev pub drive_checked : Option Port → ℕ → Flop → Result Fault Flop
drive_checked none v f = err not_an_input
drive_checked (some p) v f = do refuse (not (v == 0 || v == 1)) not_a_bit; ok (drive p (v == 1) f)

unfoldable pub set_input : String → ℕ → Flop → Result Fault Flop
set_input port value f = do
  refuse (not f.powered_on) before_power_on
  drive_checked (port_of f.kind port) value f

-- The rest of `clock_edge`, at an active edge while GSR is asserted.
edge_under_gsr : Flop → Flop
edge_under_gsr f =
    let active = ctrl_active f in
    if not (f.kind.ctrl_async && active) && (f.pin.ce || active)
    then record f { q = record f.q { prov = inferred gsr_edge } }
    else f

-- ... at an active edge with the control active.
edge_controlled : Flop → Flop
unfolding force hit_if
edge_controlled f = if f.kind.ctrl_async then f else force f.inv_c (hit_if f.inv_c inv_c f)

-- ... at an active edge with the control inactive.
edge_captures : Flop → Flop
unfolding hit hit_if out_doc
edge_captures f =
    if not f.pin.ce
    then hit ce_hold f
    else (let g = hit_if f.inv_d inv_d (hit_if f.inv_c inv_c f) in
        let attr = g.inv_c || g.inv_d in
        hit capture (record g { q = out_doc g (xor g.pin.d g.inv_d) (page_if attr g) }))

-- `clock_edge` on the clock port.
unfoldable pub edge : Bool → Flop → Flop
unfolding edge_under_gsr edge_controlled edge_captures
edge rising f =
    if not (xor rising f.inv_c)
    then f
    else if f.gsr
    then edge_under_gsr f
    else if ctrl_active f
    then edge_controlled f
    else edge_captures f

unfoldable pub clock_edge : String → Bool → Flop → Result Fault Flop
clock_edge port rising f = do
  refuse (not f.powered_on) before_power_on
  refuse (not (str_eq port "C")) not_a_clock
  ok (edge rising f)

unfoldable pub outputs : Flop → Result Fault Out
outputs f = do refuse (not f.powered_on) before_power_on; ok f.q
