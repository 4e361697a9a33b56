-- ===== src/Golden/Replay.antt =====
-- `replay` of tools/xut/golden.py, but for the bins that it reaches.
pub mod Steps
pub mod Events
pub mod Runs
pub mod Valid
pub mod Tests
use xilinx_unittests.Prelude.{
  ℕ, zero, suc, ◌+◌, ◌-◌, ◌*◌, ◌≤◌, String, Bool, true, false, not, ◌&&◌, ◌||◌, ◌==◌, leb, ltb,
  if◌then◌else◌, str_eq, Option, none, some, List, [], ◌∷◌, ◌++◌, length, get_elem?, map, any, all,
  reverse, Result, ok, err, ◌>>=◌, ◌>>◌, refuse, map_err,
}
use xilinx_unittests.Names.{Chars, chars_eq}
use xilinx_unittests.Xvec.{Name, Op, Event, Header, Vec, is_set}
use xilinx_unittests.Xvec.FreeClocks.{sort_events, free_clock_edges, is_start, is_stop}
use xilinx_unittests.Dut.{Bit, DutMap, Vector, of, port_bits, in_ports, contains, distinct_from}
use xilinx_unittests.Xtr.{Dict, Trace, XtrError, add}
use xilinx_unittests.Xtr.Prov.{prov_token}
use xilinx_unittests.Validate.{roc_width_ps, insert_time, min_sep_ps}
use xilinx_unittests.Validate.Report.{Problem, Report, is_nil, passes}
use xilinx_unittests.Validate.Groups.{KeyError, groups_of}
use xilinx_unittests.Validate.Whole.{validate}
use xilinx_unittests.Golden.{codes, decimal, text_of}
use xilinx_unittests.Golden.Model.{Out, ModelClass, Fault}
use xilinx_unittests.Golden.Ports.{
  from_model, from_trace, from_validate, is_replayed, replayed, expand_free_clocks, binary_value,
  is_bit, bits_at, port_text, port_value, put_bit, put_bits, apply_sets, nth_port, clock_port,
  signal_value, signal_name, sets, width_of, has_width, same_widths, widths, named_output,
  right_width,
}

-- Replay.
module _ (M : ModelClass) where
  open M use {State, Raised}

  -- `_check_inputs`
  unfoldable pub check_inputs : Vec → DutMap → Result (Fault Raised) (Unit {0})
  check_inputs v m = do
    refuse (not (str_eq M.prim v.header.prim && str_eq v.header.prim m.prim)) Fault.prim_mismatch
    refuse (not (v.header.nin == m.nin) || not (v.header.nclk == m.nclk)) Fault.size_mismatch
    refuse (not (same_widths (widths m) M.inputs)) Fault.inputs_mismatch

  -- `_check_outputs`
  unfoldable pub check_outputs : List (String × Out) → Result (Fault Raised) (Unit {0})
  check_outputs outs = do
    refuse
        (not (all (named_output M.output_widths) outs)
          || not (all (λ d. contains d.0 (map (λ o. o.0) outs)) M.output_widths))
        Fault.outputs_mismatch
    refuse (not (all (right_width M.output_widths) outs)) Fault.width_mismatch

  abbrev pub zero_inputs : List String → State → Result (Fault Raised) State
  zero_inputs [] s = ok s
  zero_inputs (p ∷ ps) s = from_model (M.set_input p 0 s) >>= zero_inputs ps

  unfoldable pub drive_port : DutMap → Chars → Chars → String → State → Result (Fault Raised) State
  drive_port m old new p s = do
    before ← port_text m old p
    after ← port_text m new p
    if chars_eq after before
        then ok s
        else (port_value m new p >>= λ v. from_model (M.set_input p v s))

  -- One `set_input` for each port whose bits have changed, in the order of the map.
  unfoldable pub drive_changed :
      DutMap → Chars → Chars → List String → State → Result (Fault Raised) State
  unfolding drive_port
  drive_changed m old new [] s = ok s
  drive_changed m old new (p ∷ ps) s = drive_port m old new p s >>= drive_changed m old new ps

  abbrev pub samples_of : List (String × Out) → Dict Chars × Dict Chars
  samples_of outs =
      (map (λ o. (codes o.0, o.1.bits)) outs, map (λ o. (codes o.0, prov_token o.1.prov)) outs)

  -- A turn of the loop over the events of one time.
  unfoldable pub do_event :
      DutMap → Event → Op → State → Trace → Result (Fault Raised) (State × Trace)
  unfolding check_outputs
  do_event m e Op.edge s t = do
    p ← clock_port m e.target
    next ← from_model (M.clock_edge p (chars_eq e.value (b'r' ∷ [])) s)
    ok (next, t)
  do_event m e Op.glbl s t = do
    n ← signal_name e.target
    v ← signal_value e.value
    next ← from_model (M.glbl n v s)
    ok (next, t)
  do_event m e Op.sample s t = do
    outs ← from_model (M.outputs s)
    check_outputs outs
    next ← from_trace (add (text_of e.target) (samples_of outs).0 (samples_of outs).1 t)
    ok (s, next)
  do_event m e _ s t = ok (s, t)

  unfoldable pub do_events :
      DutMap → List Event → State → Trace → Result (Fault Raised) (State × Trace)
  unfolding do_event
  do_events m [] s t = ok (s, t)
  do_events m (e ∷ es) s t = do_event m e e.op s t >>= λ r. do_events m es r.0 r.1

  -- The variables of the loop over time.
  pub record Progress : Type 0 where
    pub state : State
    pub bits : Chars
    pub released : Bool
    pub trace : Trace

  -- The start-up GSR is released before the first events at or after `ROC_WIDTH_PS`.
  abbrev pub release : ℕ → Progress → Result (Fault Raised) Progress
  release t p =
      if not p.released && leb roc_width_ps t
      then (from_model (M.glbl "GSR" false p.state) >>= λ s.
          ok (record p { state = s; released = true }))
      else ok p

  unfoldable pub do_group : DutMap → ℕ → List Event → Progress → Result (Fault Raised) Progress
  unfolding apply_sets drive_changed do_events
  do_group m t g p = do
    q ← release t p
    bits ← apply_sets (sets g) q.bits
    s ← if is_nil (sets g) then ok q.state else drive_changed m q.bits bits (in_ports m) q.state
    r ← do_events m g s q.trace
    ok (record q { state = r.0; bits = bits; trace = r.1 })

  unfoldable pub do_groups :
      DutMap → List (ℕ × List Event) → Progress → Result (Fault Raised) Progress
  unfolding do_group
  do_groups m [] p = ok p
  do_groups m ((t, g) ∷ gs) p = do_group m t g p >>= do_groups m gs

abbrev pub zeros : ℕ → Chars
zeros zero = []
zeros (suc n) = b'0' ∷ zeros n

-- The times at which some event is marked as simultaneous.
abbrev pub simultaneous_times : List Event → List ℕ
simultaneous_times [] = []
simultaneous_times (e ∷ es) =
    let rest = simultaneous_times es in if e.simultaneous then insert_time e.t rest else rest

abbrev pub trace_header : Header → Dict Chars
trace_header h =
    (codes "runner", codes "python")
    ∷ (codes "flow", codes "rtl")
    ∷ (codes "model", codes "golden")
    ∷ (codes "seed", decimal h.seed)
    ∷ (codes "kind", codes "expected")
    ∷ (codes "prim", codes h.prim)
    ∷ (codes "cfg", codes h.cfg)
    ∷ []

abbrev pub empty_trace : Header → Trace
empty_trace h = record { header = trace_header h; samples = []; prov = [] }

-- The variables of the loop before the first events.
abbrev pub started : (M : ModelClass) → Vec → M.State → Progress M
started M v s = record {
  state = s;
  bits = zeros v.header.nin;
  released = false;
  trace = empty_trace v.header;
}

module _ (M : ModelClass) (is_label : Name → Bool) (survives : Vec → Bool) where
  open M use {State, Raised}

  -- `replay`: the model and the trace at the end.
  unfoldable pub replay : Vec → DutMap → Result (Fault Raised) (Progress M)
  unfolding expand_free_clocks
  replay v m = do
    let times = simultaneous_times v.events
    refuse (not (is_nil times)) (Fault.simultaneous_events times)
    report ← from_validate (validate is_label survives v m min_sep_ps)
    refuse (not (passes report)) (Fault.invalid report.errors)
    check_inputs M v m
    s ← from_model (M.create v.header.attrs)
    powered ← zero_inputs M (in_ports m) (M.power_on s)
    do_groups M m (groups_of (expand_free_clocks v)) (started M v powered)
