-- ===== src/StimGen/Calls.antt =====
-- Every sequence of calls keeps the builder's events spaced.
use xilinx_unittests.Prelude.{
  ℕ, zero, suc, ◌+◌, ◌*◌, ◌/◌, ◌≤◌, max, String, Bool, true, false, not, ◌||◌, ltb, ◌≡◌, inl, inr,
  refl, arith, Bool-cases, if◌then◌else◌, Option, none, some, List, [], ◌∷◌, map, any, length,
  Result, ok, err, ◌>>=◌, refuse,
}
use xilinx_unittests.Xvec.{Name, Op, Event, Chars, name_eq}
use xilinx_unittests.Dut.{
  Bit, DutMap, Vector, WrapError, port_bits, clock_name, of, distinct_from, contains,
}
use xilinx_unittests.Validate.{min_sep_ps, min_settle_ps, min_event_gap}
use xilinx_unittests.StimGen as Gen
use xilinx_unittests.StimGen.{
  Builder, Value, Fault, Options, fresh, new, in_sim, spaced_time, emit, after, put_bits, put,
  put_all, bits_of, last_bit, alone_start, alone_end, after_edge, ports_now, new_time, is_level,
  level_of, put_level, not_in_sim, edge_at, sample_as, sample_if, half_cycles, cycles, cycle_port,
  group_size,
}
use xilinx_unittests.StimGen.Commands.{Command, step, generate}
use xilinx_unittests.StimGen.Spacing.{
  IsSpaced, newest, Ensures, Ensures-bind, Ensures-value, emit-IsSpaced, after-IsSpaced,
  new_time-IsSpaced,
}
use xilinx_unittests.StimGen.Steps.{
  later-IsSpaced, after_edge-IsSpaced, alone_start-IsSpaced, alone_end-IsSpaced, set-IsSpaced,
  async-IsSpaced, glbl-IsSpaced,
}

edge_at-IsSpaced :
    (r : Result WrapError ℕ) (rising : Bool) (b : Builder)
    → IsSpaced b
    → Ensures IsSpaced (edge_at r rising b)
unfolding edge_at
edge_at-IsSpaced (err e) rising b h = tt
edge_at-IsSpaced (ok k) rising b h =
    Ensures-value IsSpaced (refuse (is_level (level_of k b.level) rising) Fault.must_alternate) _
      (λ u.
        let v : Chars = (if rising then b'r' else b'f') ∷ [] in
        let c = emit Op.edge (Name.clk k) 0 0 v (alone_start b) in
        let hc =
          emit-IsSpaced Op.edge (Name.clk k) 0 0 v (alone_start b) (alone_start-IsSpaced b h) in
        let d = record c {
          level = put_level k rising c.level;
          last_edge = some c.t;
          last_change = c.t;
        } in
        let hd : IsSpaced d = record { apart = hc.apart; ahead = hc.ahead; wide = hc.wide } in
        alone_end-IsSpaced d hd)

edge-IsSpaced :
    (p : String) (r : Bool) (b : Builder) → IsSpaced b → Ensures IsSpaced (Gen.edge p r b)
unfolding Gen.edge
edge-IsSpaced p r b h = edge_at-IsSpaced (clock_name b.m p) r b h

wait-IsSpaced : (ps : ℕ) (b : Builder) → IsSpaced b → Ensures IsSpaced (Gen.wait ps b)
unfolding Gen.wait
wait-IsSpaced ps b h = Ensures-value IsSpaced (not_in_sim b) _ (λ u. later-IsSpaced ps b h)

enter-IsSpaced : (b : Builder) → IsSpaced b → Ensures IsSpaced (Gen.enter b)
unfolding Gen.enter
enter-IsSpaced b h = Ensures-value IsSpaced (not_in_sim b) _ (λ u.
    let k =
      after_edge-IsSpaced b.last_edge b.gap (after (b.last_change + b.gap) b)
        (after-IsSpaced (b.last_change + b.gap) b h) in
    record { apart = k.apart; ahead = k.ahead; wide = k.wide })

leave-IsSpaced : (b : Builder) → IsSpaced b → Ensures IsSpaced (Gen.leave b)
unfolding Gen.leave
leave-IsSpaced b h =
    Ensures-value IsSpaced (refuse (ltb (group_size b.sim) 2) Fault.lonely_group) _ (λ u.
      let k = later-IsSpaced b.gap b h in
      record { apart = k.apart; ahead = k.ahead; wide = k.wide })

-- At time 0 the cursor stays there.
abbrev IsInitial : Builder → Type 0
IsInitial b = IsSpaced b × (b.t ≡ 0)

spaced_time-zero : (es : List Event) (gap : ℕ) → spaced_time es gap 0 ≡ 0
spaced_time-zero [] gap = refl
spaced_time-zero (e ∷ es) gap = ground arith

put_bits-IsInitial :
    (p : String) (v : Value) (xs : List Bit) (b : Builder)
    → IsInitial b
    → Ensures IsInitial (put_bits p v xs b)
unfolding put_bits
put_bits-IsInitial p v [] b h = tt
put_bits-IsInitial p v (x ∷ xs) b h =
    let c = new_time b in
    Ensures-value IsInitial (refuse (contains p (ports_now c)) Fault.set_twice) _ (λ u.
      Ensures-value IsInitial (bits_of v (length (x ∷ xs))) _ (λ s.
        let d = record c { set_at = some c.t; set_ports = p ∷ ports_now c } in
        let hc = new_time-IsSpaced b h.0 in
        let hd : IsSpaced d = record { apart = hc.apart; ahead = hc.ahead; wide = hc.wide } in
        let f = emit-IsSpaced Op.set (Name.word "in") x.bit (last_bit x xs) s d hd in
        let still : spaced_time b.events b.gap b.t ≡ 0 = rw h.1 (spaced_time-zero b.events b.gap) in
        (
          record { apart = f.apart; ahead = f.ahead; wide = f.wide },
          rw still (spaced_time-zero b.events b.gap),
        )))

put_all-IsInitial :
    (ports : List (String × Value)) (b : Builder)
    → IsInitial b
    → Ensures IsInitial (put_all ports b)
unfolding put_all put
put_all-IsInitial [] b h = h
put_all-IsInitial ((p, v) ∷ r) b h =
    Ensures-bind IsInitial (put p v b) (put_all r)
      (put_bits-IsInitial p v (port_bits b.m Vector.in_vec p "") b h)
      (λ c k. put_all-IsInitial r c k)

-- Where no event has a time yet, the newest one is at time 0.
newest-zero : (es : List Event) → any (λ e. ltb 0 e.t) es ≡ false → newest es ≤ 0
newest-zero [] h = omega arith
newest-zero (e ∷ es) h = ground arith

init-IsSpaced :
    (ports : List (String × Value)) (b : Builder) → IsSpaced b → Ensures IsSpaced (Gen.init ports b)
unfolding Gen.init
init-IsSpaced ports b h = elim (Bool-cases (any (λ e. ltb 0 e.t) b.events)) [
  | inl late ↦ rw late tt
  | inr early ↦ rw early (
      Ensures-value IsSpaced (not_in_sim b) _ (λ u.
        let b' = record b { t = 0 } in
        let h' : IsSpaced b' = record {
          apart = h.apart;
          ahead = newest-zero b.events early;
          wide = h.wide;
        } in
        put_back (put_all ports b') (put_all-IsInitial ports b' (initial b' h' refl))))
]
  where
    initial : (c : Builder) → IsSpaced c → c.t ≡ 0 → IsInitial c
    initial c k z = (k, z)

    put_back :
        (r : Result Fault Builder)
        → Ensures IsInitial r
        → Ensures IsSpaced (r >>= λ c. ok (record c { t = b.t; last_change = 0 }))
    put_back (err e) k = tt
    put_back (ok c) k = record {
      apart = k.0.apart;
      ahead = omega (arith, k.0.ahead, k.1);
      wide = k.0.wide;
    }

module _ (is_label : Name → Bool) where
  sample_as-IsSpaced :
      (l : Name) (b : Builder) → IsSpaced b → Ensures IsSpaced (sample_as is_label l b)
  unfolding sample_as after
  sample_as-IsSpaced l b h =
      Ensures-value IsSpaced (refuse (not (is_label l)) Fault.bad_label) _ (λ u.
        Ensures-value IsSpaced (refuse (any (name_eq l) b.labels) Fault.duplicate_label) _ (λ w.
          let b' = record b { labels = l ∷ b.labels } in
          let h' : IsSpaced b' = record { apart = h.apart; ahead = h.ahead; wide = h.wide } in
          let c = after (b.last_change + b.gap) b' in
          later-IsSpaced b.gap (emit Op.sample l 0 0 [] c)
            (emit-IsSpaced Op.sample l 0 0 [] c (after-IsSpaced (b.last_change + b.gap) b' h'))))

  sample-IsSpaced :
      (o : Option Name) (b : Builder) → IsSpaced b → Ensures IsSpaced (Gen.sample is_label o b)
  unfolding Gen.sample
  sample-IsSpaced none b h = Ensures-value IsSpaced (not_in_sim b) _ (λ u.
      sample_as-IsSpaced (Name.auto b.n) (record b { n = b.n + 1 })
        (record { apart = h.apart; ahead = h.ahead; wide = h.wide }))
  sample-IsSpaced (some l) b h =
      Ensures-value IsSpaced (not_in_sim b) _ (λ u. sample_as-IsSpaced l b h)

  sample_if-IsSpaced :
      (s : Bool) (b : Builder) → IsSpaced b → Ensures IsSpaced (sample_if is_label s b)
  sample_if-IsSpaced true b h = sample-IsSpaced none b h
  sample_if-IsSpaced false b h = h

  half_cycles-IsSpaced :
      (p : String) (s : Bool) (b : Builder)
      → IsSpaced b
      → Ensures IsSpaced (half_cycles is_label p s b)
  unfolding half_cycles
  half_cycles-IsSpaced p s b h =
      let c = after (b.last_change + b.gap) b in
      Ensures-bind IsSpaced (Gen.edge p true c) _
        (edge-IsSpaced p true c (after-IsSpaced (b.last_change + b.gap) b h))
        (λ d hd.
          Ensures-bind IsSpaced (sample_if is_label s d) _ (sample_if-IsSpaced s d hd) (λ e he.
            let f = after (c.t + b.period / 2) e in
            Ensures-bind IsSpaced (Gen.edge p false f) _
              (edge-IsSpaced p false f (after-IsSpaced (c.t + b.period / 2) e he))
              (λ g hg.
                Ensures-bind IsSpaced (sample_if is_label s g) _ (sample_if-IsSpaced s g hg)
                  (λ k hk. after-IsSpaced (c.t + b.period) k hk))))

  cycles-IsSpaced :
      (n : ℕ) (p : String) (s : Bool) (b : Builder)
      → IsSpaced b
      → Ensures IsSpaced (cycles is_label n p s b)
  unfolding cycles
  cycles-IsSpaced zero p s b h = h
  cycles-IsSpaced (suc n) p s b h =
      Ensures-bind IsSpaced (half_cycles is_label p s b) _ (half_cycles-IsSpaced p s b h)
        (λ c k. cycles-IsSpaced n p s c k)

  cycle-IsSpaced :
      (p : Option String) (n : ℕ) (s : Bool) (b : Builder)
      → IsSpaced b
      → Ensures IsSpaced (Gen.cycle is_label p n s b)
  unfolding Gen.cycle
  cycle-IsSpaced p n s b h = Ensures-value IsSpaced (not_in_sim b) _ (λ u.
      Ensures-value IsSpaced
        (cycle_port p (distinct_from [] (map (λ x. x.port) (of b.m Vector.clk_vec)))) _
        (λ q. cycles-IsSpaced n q s b h))

  step-IsSpaced : (c : Command) (b : Builder) → IsSpaced b → Ensures IsSpaced (step is_label c b)
  unfolding step
  step-IsSpaced (Command.init ports) b h = init-IsSpaced ports b h
  step-IsSpaced (Command.set ports) b h = set-IsSpaced ports b h
  step-IsSpaced (Command.async_ p v) b h = async-IsSpaced p v b h
  step-IsSpaced (Command.glbl s v) b h = glbl-IsSpaced s v b h
  step-IsSpaced (Command.edge p r) b h = edge-IsSpaced p r b h
  step-IsSpaced (Command.sample l) b h = sample-IsSpaced l b h
  step-IsSpaced (Command.cycle p n s) b h = cycle-IsSpaced p n s b h
  step-IsSpaced (Command.wait ps) b h = wait-IsSpaced ps b h
  step-IsSpaced Command.enter b h = enter-IsSpaced b h
  step-IsSpaced Command.leave b h = leave-IsSpaced b h

  generate-IsSpaced :
      (cs : List Command) (b : Builder) → IsSpaced b → Ensures IsSpaced (generate is_label cs b)
  unfolding generate
  generate-IsSpaced [] b h = h
  generate-IsSpaced (c ∷ cs) b h =
      Ensures-bind IsSpaced (step is_label c b) (generate is_label cs) (step-IsSpaced c b h)
        (λ d k. generate-IsSpaced cs d k)

new-IsSpaced : (m : DutMap) (seed : ℕ) (o : Options) → Ensures IsSpaced (new m seed o)
unfolding new
new-IsSpaced m seed o =
    let wide_gap = max o.gap_ps (min_event_gap o.async_sep_ps m) in
    let spaced : IsSpaced (fresh m seed o wide_gap) = record {
      apart = tt;
      ahead = omega arith;
      wide = omega arith;
    } in
    Ensures-value IsSpaced
      (refuse (ltb o.gap_ps min_sep_ps || ltb o.async_sep_ps min_sep_ps) Fault.below_min_sep) _
      (λ u.
        Ensures-value IsSpaced (refuse (ltb o.settle_ps min_settle_ps) Fault.settle_too_short) _
          (λ w.
            Ensures-value IsSpaced
              (refuse (ltb (o.period_ps / 2) (3 * wide_gap)) Fault.period_too_short) _
              (λ x. spaced)))

-- However a generator uses a new builder: where its calls return, each event is at the time of any
-- newer one or at least the builder's gap before it, that gap is at least the minimum event gap of
-- the primitive, and the cursor has passed every event.
pub generate-new :
    (is_label : Name → Bool) (m : DutMap) (seed : ℕ) (o : Options) (cs : List Command)
    → Ensures IsSpaced (new m seed o >>= generate is_label cs)
generate-new is_label m seed o cs =
    Ensures-bind IsSpaced (new m seed o) (generate is_label cs) (new-IsSpaced m seed o)
      (λ b h. generate-IsSpaced is_label cs b h)
