-- ===== src/Golden/Replay/Steps.antt =====
-- What a replay asks of a model, as a list of steps that the stimulus and the wrapper determine.
use xilinx_unittests.Prelude.{
  ℕ, String, Bool, false, not, ◌&&◌, ◌||◌, leb, if◌then◌else◌, List, [], ◌∷◌, ◌++◌, Result, ok,
  ◌>>=◌, ◌>>◌,
}
use xilinx_unittests.Names.{Chars, chars_eq}
use xilinx_unittests.Xvec.{Name, Op, Event, Vec}
use xilinx_unittests.Dut.{DutMap, in_ports}
use xilinx_unittests.Xtr.{Trace, add}
use xilinx_unittests.Validate.{roc_width_ps}
use xilinx_unittests.Validate.Report.{is_nil}
use xilinx_unittests.Validate.Groups.{groups_of}
use xilinx_unittests.Golden.{text_of}
use xilinx_unittests.Golden.Model.{ModelClass, Fault}
use xilinx_unittests.Golden.Replay.{zeros, check_outputs, samples_of}
use xilinx_unittests.Golden.Ports.{
  from_model, from_trace, port_text, port_value, apply_sets, sets, expand_free_clocks, clock_port,
  signal_name, signal_value,
}

pub data Step : Type 0 where
  set_input : String → ℕ → Step
  clock_edge : String → Bool → Step
  glbl : String → Bool → Step
  take : Name → Step

-- Whether the start-up GSR is released before the events at `t`.
abbrev pub is_release : Bool → ℕ → Bool
is_release released t = not released && leb roc_width_ps t

abbrev pub release_steps : Bool → List Step
release_steps b = if b then glbl "GSR" false ∷ [] else []

abbrev pub zero_steps : List String → List Step
zero_steps [] = []
zero_steps (p ∷ ps) = set_input p 0 ∷ zero_steps ps

-- The steps of a stimulus: no model takes part.
module _ {R : Type 0} where
  abbrev pub port_steps : DutMap → Chars → Chars → String → Result (Fault R) (List Step)
  port_steps m old new p = do
    before ← port_text m old p
    after ← port_text m new p
    if chars_eq after before then ok [] else (port_value m new p >>= λ v. ok (set_input p v ∷ []))

  abbrev pub joined :
      Result (Fault R) (List Step) → Result (Fault R) (List Step) → Result (Fault R) (List Step)
  joined first later = first >>= λ xs. later >>= λ ys. ok (xs ++ ys)

  abbrev pub changed_steps : DutMap → Chars → Chars → List String → Result (Fault R) (List Step)
  changed_steps m old new [] = ok []
  changed_steps m old new (p ∷ ps) = joined (port_steps m old new p) (changed_steps m old new ps)

  abbrev pub event_steps : DutMap → Event → Op → Result (Fault R) (List Step)
  event_steps m e Op.edge = do
    p ← clock_port m e.target
    ok (clock_edge p (chars_eq e.value (b'r' ∷ [])) ∷ [])
  event_steps m e Op.glbl = do
    n ← signal_name e.target
    v ← signal_value e.value
    ok (glbl n v ∷ [])
  event_steps m e Op.sample = ok (take e.target ∷ [])
  event_steps m e _ = ok []

  abbrev pub events_steps : DutMap → List Event → Result (Fault R) (List Step)
  events_steps m [] = ok []
  events_steps m (e ∷ es) = joined (event_steps m e e.op) (events_steps m es)

  -- At each time: the release of the start-up GSR once `ROC_WIDTH_PS` is reached, then the inputs that the
  -- sets of that time have changed, in the order of the map, then the edges, signals and samples.
  abbrev pub input_steps : DutMap → List Event → Chars → Chars → Result (Fault R) (List Step)
  input_steps m ss old new = if is_nil ss then ok [] else changed_steps m old new (in_ports m)

  abbrev pub groups_steps :
      DutMap → Bool → Chars → List (ℕ × List Event) → Result (Fault R) (List Step)
  groups_steps m released bits [] = ok []
  groups_steps m released bits ((t, g) ∷ gs) = do
    next ← apply_sets (sets g) bits
    let first = is_release released t
    joined (ok (release_steps first)) (
        joined (input_steps m (sets g) bits next)
          (joined (events_steps m g) (groups_steps m (first || released) next gs)))

  -- The steps of a replay after power-on.
  unfoldable pub replay_steps : Vec → DutMap → Result (Fault R) (List Step)
  unfolding expand_free_clocks
  replay_steps v m =
      joined (ok (zero_steps (in_ports m)))
        (groups_steps m false (zeros v.header.nin) (groups_of (expand_free_clocks v)))

-- The steps carried out, one after the other, on a model and a trace.
module _ (M : ModelClass) where
  open M use {State, Raised}

  abbrev pub do_step : Step → State × Trace → Result (Fault Raised) (State × Trace)
  do_step (set_input p v) r = from_model (M.set_input p v r.0) >>= λ s. ok (s, r.1)
  do_step (clock_edge p v) r = from_model (M.clock_edge p v r.0) >>= λ s. ok (s, r.1)
  do_step (glbl n v) r = from_model (M.glbl n v r.0) >>= λ s. ok (s, r.1)
  do_step (take l) r = do
    outs ← from_model (M.outputs r.0)
    check_outputs M outs
    t ← from_trace (add (text_of l) (samples_of M outs).0 (samples_of M outs).1 r.1)
    ok (r.0, t)

  unfoldable pub do_steps : List Step → State × Trace → Result (Fault Raised) (State × Trace)
  do_steps [] r = ok r
  do_steps (x ∷ xs) r = do_step x r >>= do_steps xs
