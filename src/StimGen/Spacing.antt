-- ===== src/StimGen/Spacing.antt =====
-- The builder keeps distinct event times at least its gap apart.
use xilinx_unittests.Prelude.{
  ℕ, ◌+◌, ◌≤◌, String, ◌≡◌, ◌⊎◌, refl, arith, some, List, [], ◌∷◌, All, length, Result, ok, err,
  ◌>>=◌, refuse,
}
use native.Mathlib.Nat.{le_refl}
use xilinx_unittests.Xvec.{Name, Op, Event, Chars}
use xilinx_unittests.Dut.{Bit, contains}
use xilinx_unittests.Validate.{min_event_gap}
use xilinx_unittests.StimGen.{
  Builder, Value, Fault, in_sim, spaced_time, new_time, emit, after, event_at, put_bits, bits_of,
  last_bit, ports_now,
}

-- The same time as a newer event, or at least the gap before it.
abbrev pub IsApart : ℕ → Event → Event → Type 0
IsApart gap e f = (f.t ≡ e.t) ⊎ (f.t + gap ≤ e.t)

-- Events, newest first.
abbrev pub AreApart : ℕ → List Event → Type 0
AreApart gap [] = Unit
AreApart gap (e ∷ es) = All (IsApart gap e) es × AreApart gap es

abbrev pub newest : List Event → ℕ
newest [] = 0
newest (e ∷ es) = e.t

pub record IsSpaced (b : Builder) : Type 0 where
  pub apart : AreApart b.gap b.events
  pub ahead : newest b.events ≤ b.t
  pub wide : min_event_gap b.sep b.m ≤ b.gap

All-IsApart :
    (gap : ℕ) (e f : Event) (es : List Event)
    → IsApart gap e f
    → All (IsApart gap f) es
    → All (IsApart gap e) es
All-IsApart gap e f [] h a = tt
All-IsApart gap e f (x ∷ es) h a = (ground (arith, a.0), All-IsApart gap e f es h a.1)

pub AreApart-cons :
    (gap : ℕ) (e : Event) (es : List Event) (t : ℕ)
    → newest es ≤ t
    → e.t ≡ spaced_time es gap t
    → AreApart gap es
    → AreApart gap (e ∷ es)
AreApart-cons gap e [] t h s a = (tt, tt)
AreApart-cons gap e (f ∷ es) t h s a =
    let near : IsApart gap e f = ground arith in ((near, All-IsApart gap e f es near a.0), a)

spaced_time-ahead : (es : List Event) (gap t : ℕ) → newest es ≤ t → newest es ≤ spaced_time es gap t
spaced_time-ahead [] gap t h = omega arith
spaced_time-ahead (e ∷ es) gap t h = ground arith

pub emit-IsSpaced :
    (op : Op) (target : Name) (l m : ℕ) (v : Chars) (b : Builder)
    → IsSpaced b
    → IsSpaced (emit op target l m v b)
unfolding emit
emit-IsSpaced op target l m v b h =
    let t = spaced_time b.events b.gap b.t in
    record {
      apart =
          AreApart-cons b.gap (event_at t op target l m v (in_sim b.sim)) b.events b.t h.ahead refl
            h.apart;
      ahead = le_refl t;
      wide = h.wide;
    }

-- Where the call returns, `P` holds of the new builder.
abbrev pub Ensures : (Builder → Type 0) → Result Fault Builder → Type 0
Ensures P (err e) = Unit
Ensures P (ok b) = P b

module _ (P : Builder → Type 0) where
  pub Ensures-bind :
      (r : Result Fault Builder) (f : Builder → Result Fault Builder)
      → Ensures P r
      → ((b : Builder) → P b → Ensures P (f b))
      → Ensures P (r >>= f)
  Ensures-bind (err e) f h k = tt
  Ensures-bind (ok b) f h k = k b h

  pub Ensures-value :
      {A : Type 0} (r : Result Fault A) (f : A → Result Fault Builder)
      → ((a : A) → Ensures P (f a))
      → Ensures P (r >>= f)
  Ensures-value (err e) f k = tt
  Ensures-value (ok a) f k = k a

-- The cursor moves on, and nothing that spacing reads changes but the time.
pub new_time-IsSpaced : (b : Builder) → IsSpaced b → IsSpaced (new_time b)
unfolding new_time
new_time-IsSpaced b h = record {
  apart = h.apart;
  ahead = spaced_time-ahead b.events b.gap b.t h.ahead;
  wide = h.wide;
}

pub after-IsSpaced : (t : ℕ) (b : Builder) → IsSpaced b → IsSpaced (after t b)
unfolding after
after-IsSpaced t b h = record { apart = h.apart; ahead = omega (arith, h.ahead); wide = h.wide }

pub put_bits-IsSpaced :
    (p : String) (v : Value) (xs : List Bit) (b : Builder)
    → IsSpaced b
    → Ensures IsSpaced (put_bits p v xs b)
unfolding put_bits
put_bits-IsSpaced p v [] b h = tt
put_bits-IsSpaced p v (x ∷ xs) b h =
    let c = new_time b in
    Ensures-value IsSpaced (refuse (contains p (ports_now c)) Fault.set_twice) _ (λ u.
      Ensures-value IsSpaced (bits_of v (length (x ∷ xs))) _ (λ s.
        let d = record c { set_at = some c.t; set_ports = p ∷ ports_now c } in
        let hc = new_time-IsSpaced b h in
        let hd : IsSpaced d = record { apart = hc.apart; ahead = hc.ahead; wide = hc.wide } in
        let f = emit-IsSpaced Op.set (Name.word "in") x.bit (last_bit x xs) s d hd in
        record { apart = f.apart; ahead = f.ahead; wide = f.wide }))
