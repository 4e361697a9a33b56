-- ===== src/Golden/Replay/Runs.antt =====
-- A replay carries out the steps of its stimulus.
use xilinx_unittests.Prelude.{
  ℕ, String, Bool, true, false, not, ◌||◌, if◌then◌else◌, ◌≡◌, refl, sym, ap, subst, ◌∙◌, List, [],
  ◌∷◌, Result, ok, ◌>>=◌, bind-ok, bind-intro, check-ok, refuse, ok-injective, map_err-ok,
}
use xilinx_unittests.Names.{Chars}
use xilinx_unittests.Xvec.{Name, Event, Vec}
use xilinx_unittests.Dut.{DutMap, in_ports}
use xilinx_unittests.Xtr.{Trace}
use xilinx_unittests.Validate.{min_sep_ps}
use xilinx_unittests.Validate.Report.{is_nil, passes}
use xilinx_unittests.Validate.Groups.{groups_of}
use xilinx_unittests.Validate.Whole.{validate}
use xilinx_unittests.Golden.Model.{ModelClass, Fault}
use xilinx_unittests.Golden.Replay.{
  drive_changed, do_events, Progress, release, do_group, do_groups, zero_inputs, replay,
  empty_trace, simultaneous_times, check_inputs, started, zeros,
}
use xilinx_unittests.Golden.Ports.{from_model, apply_sets, sets, from_validate, expand_free_clocks}
use xilinx_unittests.Golden.Replay.Steps.{
  Step, joined, release_steps, input_steps, events_steps, is_release, groups_steps, zero_steps,
  replay_steps, do_step, do_steps,
}
use xilinx_unittests.Golden.Replay.Events.{
  Runs, joined-Runs, none-Runs, one-Runs, bind-Runs, drive_changed-Runs, do_events-Runs,
}

module _ (M : ModelClass) where
  open M use {State, Raised}

  release_if-Runs :
      (c : Bool) (p q : Progress M)
      → (if c
          then (from_model (M.glbl "GSR" false p.state) >>= λ s.
              ok (record p { state = s; released = true }))
          else ok p)
        ≡ ok q
      → (q.released ≡ (c || p.released))
        × (q.bits ≡ p.bits)
        × Runs M (ok (release_steps c)) (p.state, p.trace) (q.state, q.trace)
  release_if-Runs true p q h =
      let (s, signal, same) = bind-ok (from_model (M.glbl "GSR" false p.state)) _ h in
      let e = ok-injective (record p { state = s; released = true }) q same in
      (
        sym (ap (λ r. r.released) e),
        sym (ap (λ r. r.bits) e),
        one-Runs M (Step.glbl "GSR" false) (p.state, p.trace) (q.state, q.trace)
            (bind-intro (from_model (M.glbl "GSR" false p.state)) _ s signal
              (ap (λ r. ok (r.state, r.trace)) e)),
      )
  release_if-Runs false p q h =
      let e = ok-injective p q h in
      (
        sym (ap (λ r. r.released) e),
        sym (ap (λ r. r.bits) e),
        none-Runs M (p.state, p.trace) (q.state, q.trace) (ap (λ r. (r.state, r.trace)) e),
      )

  inputs-Runs :
      (m : DutMap) (ss : List Event) (old new : Chars) (s r : State) (t : Trace)
      → (if is_nil ss then ok s else drive_changed M m old new (in_ports m) s) ≡ ok r
      → Runs M (input_steps m ss old new) (s, t) (r, t)
  inputs-Runs m [] old new s r t h =
      none-Runs M (s, t) (r, t) (ap (λ k. (k, t)) (ok-injective s r h))
  inputs-Runs m (e ∷ ss) old new s r t h = drive_changed-Runs M m old new (in_ports m) s r t h

  -- The loop variables after a time, from those at its release, and the steps of that time before those after it.
  abbrev IsTurn :
      DutMap
      → List Event
      → Progress M
      → Progress M
      → Result (Fault Raised) (List Step)
      → State × Trace
      → Type 0
  IsTurn m g a q later z =
      (q.released ≡ a.released)
      × (apply_sets {R = Raised} (sets g) a.bits ≡ ok q.bits)
      × Runs M (joined (input_steps m (sets g) a.bits q.bits) (joined (events_steps m g) later))
          (a.state, a.trace) z

  IsTurn-end :
      (m : DutMap) (g : List Event) (a q : Progress M) (bits : Chars) (s : State)
      (r : State × Trace) (later : Result (Fault Raised) (List Step)) (z : State × Trace)
      → apply_sets {R = Raised} (sets g) a.bits ≡ ok bits
      → (if is_nil (sets g) then ok a.state else drive_changed M m a.bits bits (in_ports m) a.state)
        ≡ ok s
      → do_events M m g s a.trace ≡ ok r
      → record a { state = r.0; bits = bits; trace = r.1 } ≡ q
      → Runs M later (q.state, q.trace) z
      → IsTurn m g a q later z
  IsTurn-end m g a q bits s r later z driven inputs events e k =
      subst (λ c. IsTurn m g a c later z) e
        (
          refl,
          driven,
          joined-Runs M (input_steps m (sets g) a.bits bits) _ (a.state, a.trace) (s, a.trace) z
              (inputs-Runs m (sets g) a.bits bits a.state s a.trace inputs)
              (joined-Runs M (events_steps m g) later (s, a.trace) r z
                (do_events-Runs M m g s a.trace r events)
                (subst (λ c. Runs M later (c.state, c.trace) z) (sym e) k)),
        )

  IsTurn-Runs :
      (m : DutMap) (g : List Event) (a q : Progress M) (later : Result (Fault Raised) (List Step))
      (z : State × Trace)
      → (apply_sets (sets g) a.bits >>= λ bits.
          (if is_nil (sets g)
            then ok a.state
            else drive_changed M m a.bits bits (in_ports m) a.state)
          >>= λ s. do_events M m g s a.trace >>= λ r.
              ok (record a { state = r.0; bits = bits; trace = r.1 }))
        ≡ ok q
      → Runs M later (q.state, q.trace) z
      → IsTurn m g a q later z
  IsTurn-Runs m g a q later z h k =
      let (bits, driven, h2) = bind-ok (apply_sets (sets g) a.bits) _ h in
      let (s, inputs, h3) =
        bind-ok
          (if is_nil (sets g)
            then ok a.state
            else drive_changed M m a.bits bits (in_ports m) a.state)
          _ h2 in
      let (r, events, last) = bind-ok (do_events M m g s a.trace) _ h3 in
      IsTurn-end m g a q bits s r later z driven inputs events
        (ok-injective (record a { state = r.0; bits = bits; trace = r.1 }) q last) k

  groups_from :
      (m : DutMap) (t : ℕ) (g : List Event) (gs : List (ℕ × List Event)) (p a next : Progress M)
      (z : State × Trace)
      → a.bits ≡ p.bits
      → a.released ≡ (is_release p.released t || p.released)
      → Runs M (ok (release_steps (is_release p.released t))) (p.state, p.trace) (a.state, a.trace)
      → IsTurn m g a next (groups_steps m next.released next.bits gs) z
      → Runs M (groups_steps m p.released p.bits ((t, g) ∷ gs)) (p.state, p.trace) z
  groups_from m t g gs p a next z same flag opening (kept, driven, steps) =
      let after_release = λ (b : Chars) (f : Bool).
        joined (input_steps m (sets g) b next.bits)
          (joined (events_steps m g) (groups_steps {R = Raised} m f next.bits gs)) in
      bind-Runs M (apply_sets (sets g) p.bits) _ next.bits (p.state, p.trace) z
        (subst (λ b. apply_sets {R = Raised} (sets g) b ≡ ok next.bits) same driven)
        (joined-Runs M (ok (release_steps (is_release p.released t))) _ (p.state, p.trace)
          (a.state, a.trace) z opening
          (subst
            (λ b.
              Runs M (after_release b (is_release p.released t || p.released)) (a.state, a.trace) z)
            same
            (subst (λ f. Runs M (after_release a.bits f) (a.state, a.trace) z) (kept ∙ flag)
              steps)))

  do_groups-Runs :
      (m : DutMap) (gs : List (ℕ × List Event)) (p q : Progress M)
      → do_groups M m gs p ≡ ok q
      → Runs M (groups_steps m p.released p.bits gs) (p.state, p.trace) (q.state, q.trace)
  unfolding do_groups do_group
  do_groups-Runs m [] p q h =
      none-Runs M (p.state, p.trace) (q.state, q.trace)
        (ap (λ r. (r.state, r.trace)) (ok-injective p q h))
  do_groups-Runs m ((t, g) ∷ gs) p q h =
      let (next, first, rest) = bind-ok (do_group M m t g p) (do_groups M m gs) h in
      let (a, released, h1) = bind-ok (release M t p) _ first in
      let (flag, same, opening) = release_if-Runs (is_release p.released t) p a released in
      groups_from m t g gs p a next (q.state, q.trace) same flag opening
        (IsTurn-Runs m g a next (groups_steps m next.released next.bits gs) (q.state, q.trace) h1
          (do_groups-Runs m gs next q rest))

  zero_inputs-Runs :
      (ps : List String) (s r : State) (t : Trace)
      → zero_inputs M ps s ≡ ok r
      → do_steps M (zero_steps ps) (s, t) ≡ ok (r, t)
  unfolding do_steps
  zero_inputs-Runs [] s r t h = ap (λ x. ok (x, t)) (ok-injective s r h)
  zero_inputs-Runs (p ∷ ps) s r t h =
      let (u, set, rest) = bind-ok (from_model (M.set_input p 0 s)) (zero_inputs M ps) h in
      bind-intro (do_step M (Step.set_input p 0) (s, t)) (do_steps M (zero_steps ps)) (u, t)
        (bind-intro (from_model (M.set_input p 0 s)) _ u set refl) (zero_inputs-Runs ps u r t rest)

module _ (M : ModelClass) (is_label : Name → Bool) (survives : Vec → Bool) where
  open M use {State, Raised}

  -- Where a replay ends with a trace, the stimulus and the wrapper alone set a list of steps, and the replay is
  -- those steps carried out in order on the new, powered-on model and a trace without samples.
  pub replay-Runs :
      (v : Vec) (m : DutMap) (q : Progress M)
      → replay M is_label survives v m ≡ ok q
      → (s : State) × (M.create v.header.attrs ≡ ok s)
        × (xs : List Step) × (replay_steps {R = Raised} v m ≡ ok xs)
        × (do_steps M xs (M.power_on s, empty_trace v.header) ≡ ok (q.state, q.trace))
  unfolding replay replay_steps
  replay-Runs v m q h =
      let (simultaneous, h1) =
        check-ok (refuse (not (is_nil (simultaneous_times v.events))) _) _ h in
      let (report, validated, h2) =
        bind-ok (from_validate (validate is_label survives v m min_sep_ps)) _ h1 in
      let (valid, h3) = check-ok (refuse (not (passes report)) _) _ h2 in
      let (fits, h4) = check-ok (check_inputs M v m) _ h3 in
      let (s, made, h5) = bind-ok (from_model (M.create v.header.attrs)) _ h4 in
      let (powered, zeroed, looped) = bind-ok (zero_inputs M (in_ports m) (M.power_on s)) _ h5 in
      let gs = groups_of (expand_free_clocks v) in
      let (xs, planned, done) =
        joined-Runs M (ok (zero_steps (in_ports m))) (groups_steps m false (zeros v.header.nin) gs)
          (M.power_on s, empty_trace v.header) (powered, empty_trace v.header) (q.state, q.trace)
          (
            zero_steps (in_ports m),
            refl,
            zero_inputs-Runs M (in_ports m) (M.power_on s) powered (empty_trace v.header) zeroed,
          )
          (do_groups-Runs M m gs (started M v powered) q looped) in
      (s, map_err-ok Fault.model (M.create v.header.attrs) s made, xs, planned, done)
