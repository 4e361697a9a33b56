-- ===== src/StimGen/Steps.antt =====
-- Every call of the builder keeps its events spaced.
use xilinx_unittests.Prelude.{
  ℕ, ◌+◌, String, Bool, true, false, not, ◌&&◌, ◌||◌, ◌==◌, ltb, inl, inr, arith, Bool-cases,
  if◌then◌else◌, Option, none, some, List, [], ◌∷◌, any, length, refuse,
}
use xilinx_unittests.Xvec.{Name, Op, is_signal}
use xilinx_unittests.Dut.{Vector, port_bits, contains}
use xilinx_unittests.StimGen as Gen
use xilinx_unittests.StimGen.{
  Builder, Value, Fault, Options, new, in_sim, emit, after, put_bits, put, put_all, put_changed,
  has_value, alone_start, alone_end, after_edge, separate, settle_after, check_classes, ports_now,
  not_in_sim, edge_at, is_level, level_of, put_level, sample_as, sample_if, half_cycles, cycles,
  cycle_port, group_size,
}
use xilinx_unittests.StimGen.Spacing.{
  IsSpaced, Ensures, Ensures-bind, Ensures-value, emit-IsSpaced, after-IsSpaced, put_bits-IsSpaced,
}

pub put-IsSpaced :
    (p : String) (v : Value) (b : Builder) → IsSpaced b → Ensures IsSpaced (put p v b)
unfolding put
put-IsSpaced p v b h = put_bits-IsSpaced p v (port_bits b.m Vector.in_vec p "") b h

put_changed-IsSpaced :
    (ports : List (String × Value)) (b : Builder)
    → IsSpaced b
    → Ensures IsSpaced (put_changed ports b)
unfolding put_changed
put_changed-IsSpaced [] b h = h
put_changed-IsSpaced ((p, v) ∷ r) b h = elim (Bool-cases (has_value p v b.vals)) [
  | inl old ↦ rw old (put_changed-IsSpaced r b h)
  | inr new ↦ rw new (
      Ensures-bind IsSpaced (put p v b) (put_changed r) (put-IsSpaced p v b h)
        (λ c k. put_changed-IsSpaced r c k))
]

-- The cursor moves on by `d`.
pub later-IsSpaced : (d : ℕ) (b : Builder) → IsSpaced b → IsSpaced (record b { t = b.t + d })
later-IsSpaced d b h = record { apart = h.apart; ahead = omega (arith, h.ahead); wide = h.wide }

pub after_edge-IsSpaced :
    (o : Option ℕ) (d : ℕ) (b : Builder) → IsSpaced b → IsSpaced (after_edge o d b)
after_edge-IsSpaced none d b h = h
after_edge-IsSpaced (some s) d b h = after-IsSpaced (s + d) b h

if-IsSpaced : (x : Bool) (b c : Builder) → IsSpaced b → IsSpaced c → IsSpaced (if x then b else c)
if-IsSpaced true b c h k = h
if-IsSpaced false b c h k = k

pub alone_start-IsSpaced : (b : Builder) → IsSpaced b → IsSpaced (alone_start b)
alone_start-IsSpaced b h =
    if-IsSpaced (in_sim b.sim) b (after (b.last_change + b.gap) b) h
      (after-IsSpaced (b.last_change + b.gap) b h)

pub alone_end-IsSpaced : (b : Builder) → IsSpaced b → IsSpaced (alone_end b)
alone_end-IsSpaced b h =
    if-IsSpaced (in_sim b.sim) b (record b { t = b.t + b.gap }) h (later-IsSpaced b.gap b h)

separate-IsSpaced : (b : Builder) → IsSpaced b → IsSpaced (separate b)
separate-IsSpaced b h =
    let c = alone_start b in
    if-IsSpaced (in_sim b.sim) b (after_edge c.last_edge c.sep c) h
      (after_edge-IsSpaced c.last_edge c.sep c (alone_start-IsSpaced b h))

settle_after-IsSpaced : (b : Builder) → IsSpaced b → IsSpaced (settle_after b)
settle_after-IsSpaced b h =
    if-IsSpaced (in_sim b.sim) b (after (b.last_change + b.sep) b) h
      (after-IsSpaced (b.last_change + b.sep) b h)

pub set-IsSpaced :
    (ports : List (String × Value)) (b : Builder) → IsSpaced b → Ensures IsSpaced (Gen.set ports b)
unfolding Gen.set
set-IsSpaced ports b h =
    let c = if in_sim b.sim then b else after_edge b.last_edge b.gap b in
    let hc =
      if-IsSpaced (in_sim b.sim) b (after_edge b.last_edge b.gap b) h
        (after_edge-IsSpaced b.last_edge b.gap b h) in
    let again =
      not (in_sim c.sim) && any (λ (p : String × Value). contains p.0 (ports_now c)) ports in
    Ensures-value IsSpaced (check_classes ports b) _ (λ u.
      put_changed-IsSpaced ports (if again then record c { t = c.t + c.gap } else c)
        (if-IsSpaced again (record c { t = c.t + c.gap }) c (later-IsSpaced c.gap c hc) hc))

pub async-IsSpaced :
    (p : String) (v : Value) (b : Builder) → IsSpaced b → Ensures IsSpaced (Gen.async_ p v b)
unfolding Gen.async_
async-IsSpaced p v b h =
    Ensures-value IsSpaced
      (refuse (not (in_sim b.sim) && ltb 1 (length (port_bits b.m Vector.in_vec p "")))
        Fault.several_async_bits)
      _
      (λ u.
        Ensures-bind IsSpaced (put p v (separate b)) _
          (put-IsSpaced p v (separate b) (separate-IsSpaced b h))
          (λ c k. settle_after-IsSpaced (alone_end c) (alone_end-IsSpaced c k)))

pub glbl-IsSpaced :
    (s : Name) (v : ℕ) (b : Builder) → IsSpaced b → Ensures IsSpaced (Gen.glbl s v b)
unfolding Gen.glbl
glbl-IsSpaced s v b h =
    Ensures-value IsSpaced (refuse (not (is_signal s) || not (v == 0 || v == 1)) Fault.bad_glbl) _
      (λ u.
        let c = emit Op.glbl s 0 0 ((b'0' + v) ∷ []) (separate b) in
        let k =
          emit-IsSpaced Op.glbl s 0 0 ((b'0' + v) ∷ []) (separate b) (separate-IsSpaced b h) in
        let d = record c { last_change = c.t } in
        let hd : IsSpaced d = record { apart = k.apart; ahead = k.ahead; wide = k.wide } in
        settle_after-IsSpaced (alone_end d) (alone_end-IsSpaced d hd))
