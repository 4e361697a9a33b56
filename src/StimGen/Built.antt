-- ===== src/StimGen/Built.antt =====
-- The stimulus that a builder ends with has the event gaps that hardware rendering asks for.
use mathlib.Core.List.{Memᴰ, reverse-cons}
use mathlib.Core.List.Memᴰ as MemD
use xilinx_unittests.Prelude.{
  ℕ, ◌+◌, ◌≤◌, ◌<◌, Bool, false, ◌≡◌, inl, inr, refl, sym, subst, arith, List, [], ◌∷◌, reverse,
  All, Result, ok, err, ◌>>=◌, check-ok, ap,
}
use xilinx_unittests.Xvec.{Name, Op, Event, Vec}
use xilinx_unittests.Dut.{DutMap}
use xilinx_unittests.Validate.{min_event_gap, sep_of, check_event_gaps}
use xilinx_unittests.Validate.Gaps.{check_event_gaps_none}
use xilinx_unittests.StimGen.{
  Builder, Fault, Options, new, after, event_at, spaced_time, not_in_sim, build,
}
use xilinx_unittests.StimGen.Commands.{Command, generate}
use xilinx_unittests.StimGen.Spacing.{
  IsApart, AreApart, AreApart-cons, IsSpaced, Ensures, after-IsSpaced,
}
use xilinx_unittests.StimGen.Calls.{generate-new}

mem-reverse {ℓ} : {A : Type ℓ} (a : A) (l : List A) → Memᴰ a (reverse l) → Memᴰ a l
mem-reverse a [] m = m
mem-reverse a (x ∷ l) m = elim (MemD.append_cases (reverse l) (rw reverse-cons at m)) [
  | inl k ↦ MemD.tail (mem-reverse a l k)
  | inr k ↦ elim (MemD.cases_cons k) [ inl e ↦ MemD.head e | inr n ↦ absurd (MemD.not-nil n) ]
]

All-mem :
    (gap : ℕ) (e f : Event) (es : List Event) → All (IsApart gap e) es → Memᴰ f es → IsApart gap e f
All-mem gap e f [] a m = absurd (MemD.not-nil m)
All-mem gap e f (x ∷ es) a m = elim (MemD.cases_cons m) [
  | inl s ↦ subst (IsApart gap e) (sym s) a.0
  | inr k ↦ All-mem gap e f es a.1 k
]

AreApart-far :
    (gap : ℕ) (es : List Event) (e f : Event)
    → AreApart gap es
    → Memᴰ e es
    → Memᴰ f es
    → e.t < f.t
    → e.t + gap ≤ f.t
AreApart-far gap [] e f a me mf lt = absurd (MemD.not-nil me)
AreApart-far gap (x ∷ es) e f a me mf lt = elim (MemD.cases_cons me) [
  | inl se ↦ elim (MemD.cases_cons mf) [
    | inl sf ↦ absurd (omega (arith, ap (λ (y : Event). y.t) se, ap (λ (y : Event). y.t) sf))
    | inr kf ↦
        let near = All-mem gap x f es a.0 kf in
        absurd (ground (arith, near, ap (λ (y : Event). y.t) se))
  ]
  | inr ke ↦ elim (MemD.cases_cons mf) [
    | inl sf ↦
        let near = All-mem gap x e es a.0 ke in ground (arith, near, ap (λ (y : Event). y.t) sf)
    | inr kf ↦ AreApart-far gap es e f a.1 ke kf lt
  ]
]

abbrev or_else : Vec → Result Fault Vec → Vec
or_else v (err e) = v
or_else v (ok w) = w

build-gaps :
    (b : Builder) (v : Vec)
    → IsSpaced b
    → build b ≡ ok v
    → check_event_gaps v (min_event_gap (sep_of v.header) b.m) ≡ []
unfolding build after
build-gaps b v h q =
    let (outside, made) = check-ok (not_in_sim b) _ q in
    let same = ap (or_else v) made in
    let c = after (b.last_change + b.gap) b in
    let t = spaced_time c.events c.gap c.t in
    let end = event_at t Op.end (Name.word "") 0 0 [] false in
    let hc = after-IsSpaced (b.last_change + b.gap) b h in
    let all_apart = AreApart-cons b.gap end b.events c.t hc.ahead refl h.apart in
    let sep : b.sep ≡ sep_of v.header = ap (λ (x : Vec). sep_of x.header) same in
    let wide : min_event_gap (sep_of v.header) b.m ≤ b.gap =
      subst (λ s. min_event_gap s b.m ≤ b.gap) sep h.wide in
    check_event_gaps_none v (min_event_gap (sep_of v.header) b.m) (λ e f me mf lt.
      let back = λ (x : Event) (m : Memᴰ x v.events).
        mem-reverse x (end ∷ b.events) (subst (λ (w : Vec). Memᴰ x w.events) (sym same) m) in
      let far = AreApart-far b.gap (end ∷ b.events) e f all_apart (back e me) (back f mf) lt in
      omega arith)

-- Whatever a generator does with a new builder: where its calls and the build return, no two
-- distinct event times of the stimulus are closer than the minimum event gap that the validator
-- asks for, so it gives no such reason against rendering the file.
pub built-gaps :
    (is_label : Name → Bool) (m : DutMap) (seed : ℕ) (o : Options) (cs : List Command) (b : Builder)
    (v : Vec)
    → (new m seed o >>= generate is_label cs) ≡ ok b
    → build b ≡ ok v
    → check_event_gaps v (min_event_gap (sep_of v.header) b.m) ≡ []
built-gaps is_label m seed o cs b v made built =
    build-gaps b v (subst (Ensures IsSpaced) made (generate-new is_label m seed o cs)) built
