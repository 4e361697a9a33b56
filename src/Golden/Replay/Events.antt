-- ===== src/Golden/Replay/Events.antt =====
-- The changes of the inputs and the events of one time carry out the steps that they set.
use xilinx_unittests.Prelude.{
  String, Bool, true, false, if◌then◌else◌, ◌≡◌, refl, ap, ◌∙◌, List, [], ◌∷◌, ◌++◌, Result, ok,
  ◌>>=◌, bind-ok, bind-intro, ok-injective,
}
use xilinx_unittests.Names.{Chars, chars_eq}
use xilinx_unittests.Xvec.{Op, Event}
use xilinx_unittests.Dut.{DutMap}
use xilinx_unittests.Xtr.{Trace}
use xilinx_unittests.Golden.Model.{ModelClass, Fault}
use xilinx_unittests.Golden.Replay.{drive_port, drive_changed, do_event, do_events}
use xilinx_unittests.Golden.Ports.{
  from_model, port_text, port_value, clock_port, signal_name, signal_value,
}
use xilinx_unittests.Golden.Replay.Steps.{
  Step, port_steps, joined, changed_steps, event_steps, events_steps, do_step, do_steps,
}

module _ (M : ModelClass) where
  open M use {State, Raised}

  pub do_steps-append :
      (xs ys : List Step) (a b c : State × Trace)
      → do_steps M xs a ≡ ok b
      → do_steps M ys b ≡ ok c
      → do_steps M (xs ++ ys) a ≡ ok c
  unfolding do_steps
  do_steps-append [] ys a b c h k = ap (do_steps M ys) (ok-injective a b h) ∙ k
  do_steps-append (x ∷ xs) ys a b c h k =
      let (d, first, rest) = bind-ok (do_step M x a) (do_steps M xs) h in
      rw first (do_steps-append xs ys d b c rest k)

  pub one_step :
      (x : Step) (a b : State × Trace) → do_step M x a ≡ ok b → do_steps M (x ∷ []) a ≡ ok b
  unfolding do_steps
  one_step x a b h = rw h refl

  pub no_steps : (a : State × Trace) → do_steps M [] a ≡ ok a
  unfolding do_steps
  no_steps a = refl

  -- The steps are planned, and take the model and the trace from `a` to `b`.
  abbrev pub Runs : Result (Fault Raised) (List Step) → State × Trace → State × Trace → Type 0
  Runs planned a b = (xs : List Step) × (planned ≡ ok xs) × (do_steps M xs a ≡ ok b)

  pub joined-Runs :
      (first later : Result (Fault Raised) (List Step)) (a b c : State × Trace)
      → Runs first a b
      → Runs later b c
      → Runs (joined first later) a c
  joined-Runs first later a b c (xs, xs_planned, xs_done) (ys, ys_planned, ys_done) = (
    xs ++ ys,
    bind-intro first _ xs xs_planned (bind-intro later _ ys ys_planned refl),
    do_steps-append xs ys a b c xs_done ys_done,
  )

  pub none-Runs : (a b : State × Trace) → a ≡ b → Runs (ok []) a b
  none-Runs a b h = ([], refl, no_steps a ∙ ap ok h)

  pub one-Runs : (x : Step) (a b : State × Trace) → do_step M x a ≡ ok b → Runs (ok (x ∷ [])) a b
  one-Runs x a b h = (x ∷ [], refl, one_step x a b h)

  pub bind-Runs :
      {A : Type 0} (r : Result (Fault Raised) A) (f : A → Result (Fault Raised) (List Step)) (v : A)
      (a b : State × Trace)
      → r ≡ ok v
      → Runs (f v) a b
      → Runs (r >>= f) a b
  bind-Runs r f v a b h (xs, planned, done) = (xs, bind-intro r f v h planned, done)

  pub choice-Runs :
      (c : Bool) (m : DutMap) (new : Chars) (p : String) (s r : State) (t : Trace)
      → (if c then ok s else (port_value m new p >>= λ v. from_model (M.set_input p v s))) ≡ ok r
      → Runs
          (if c then ok [] else (port_value m new p >>= λ v. ok (Step.set_input p v ∷ [])))
          (s, t)
          (r, t)
  choice-Runs true m new p s r t h = none-Runs (s, t) (r, t) (ap (λ k. (k, t)) (ok-injective s r h))
  choice-Runs false m new p s r t h =
      let (v, value, set) = bind-ok (port_value m new p) _ h in
      bind-Runs (port_value m new p) _ v (s, t) (r, t) value
        (one-Runs (Step.set_input p v) (s, t) (r, t)
          (bind-intro (from_model (M.set_input p v s)) _ r set refl))

  pub drive_port-Runs :
      (m : DutMap) (old new : Chars) (p : String) (s r : State) (t : Trace)
      → drive_port M m old new p s ≡ ok r
      → Runs (port_steps m old new p) (s, t) (r, t)
  unfolding drive_port
  drive_port-Runs m old new p s r t h =
      let (before, b, h1) = bind-ok (port_text m old p) _ h in
      let (after, a, h2) = bind-ok (port_text m new p) _ h1 in
      bind-Runs (port_text m old p) _ before (s, t) (r, t) b
        (bind-Runs (port_text m new p) _ after (s, t) (r, t) a
          (choice-Runs (chars_eq after before) m new p s r t h2))

  pub drive_changed-Runs :
      (m : DutMap) (old new : Chars) (ps : List String) (s r : State) (t : Trace)
      → drive_changed M m old new ps s ≡ ok r
      → Runs (changed_steps m old new ps) (s, t) (r, t)
  unfolding drive_changed
  drive_changed-Runs m old new [] s r t h =
      none-Runs (s, t) (r, t) (ap (λ k. (k, t)) (ok-injective s r h))
  drive_changed-Runs m old new (p ∷ ps) s r t h =
      let (next, first, rest) = bind-ok (drive_port M m old new p s) _ h in
      joined-Runs (port_steps m old new p) (changed_steps m old new ps) (s, t) (next, t) (r, t)
        (drive_port-Runs m old new p s next t first) (drive_changed-Runs m old new ps next r t rest)

  pub skip-Runs :
      (s : State) (t : Trace) (r : State × Trace)
      → ◌≡◌ {A = Result (Fault Raised) (State × Trace)} (ok (s, t)) (ok r)
      → Runs (ok []) (s, t) r
  skip-Runs s t r h = none-Runs (s, t) r (ok-injective (s, t) r h)

  pub do_event-Runs :
      (m : DutMap) (e : Event) (o : Op) (s : State) (t : Trace) (r : State × Trace)
      → do_event M m e o s t ≡ ok r
      → Runs (event_steps m e o) (s, t) r
  unfolding do_event
  do_event-Runs m e Op.edge s t r h =
      let (p, port, rest) = bind-ok (clock_port m e.target) _ h in
      bind-Runs (clock_port m e.target) _ p (s, t) r port
        (one-Runs (Step.clock_edge p (chars_eq e.value (b'r' ∷ []))) (s, t) r rest)
  do_event-Runs m e Op.glbl s t r h =
      let (n, name, h1) = bind-ok (signal_name e.target) _ h in
      let (v, value, rest) = bind-ok (signal_value e.value) _ h1 in
      bind-Runs (signal_name e.target) _ n (s, t) r name
        (bind-Runs (signal_value e.value) _ v (s, t) r value
          (one-Runs (Step.glbl n v) (s, t) r rest))
  do_event-Runs m e Op.sample s t r h = one-Runs (Step.take e.target) (s, t) r h
  do_event-Runs m e Op.set s t r h = skip-Runs s t r h
  do_event-Runs m e Op.clock_start s t r h = skip-Runs s t r h
  do_event-Runs m e Op.clock_stop s t r h = skip-Runs s t r h
  do_event-Runs m e (Op.unknown o) s t r h = skip-Runs s t r h
  do_event-Runs m e Op.end s t r h = skip-Runs s t r h

  pub do_events-Runs :
      (m : DutMap) (es : List Event) (s : State) (t : Trace) (r : State × Trace)
      → do_events M m es s t ≡ ok r
      → Runs (events_steps m es) (s, t) r
  unfolding do_events
  do_events-Runs m [] s t r h = skip-Runs s t r h
  do_events-Runs m (e ∷ es) s t r h =
      let (next, first, rest) = bind-ok (do_event M m e e.op s t) _ h in
      joined-Runs (event_steps m e e.op) (events_steps m es) (s, t) next r
        (do_event-Runs m e e.op s t next first) (do_events-Runs m es next.0 next.1 r rest)
