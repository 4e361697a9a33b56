-- ===== src/Validate/Gaps.antt =====
-- `_check_event_gaps` finds nothing exactly where all distinct event times are a gap apart.
use mathlib.Core.List.{Memᴰ}
use mathlib.Core.List.Memᴰ as MemD
use xilinx_unittests.Prelude.{
  ℕ, ◌+◌, ◌≤◌, ◌<◌, ◌==◌, ltb, ◌≡◌, ◌⊎◌, inl, inr, refl, arith, Bool-cases, List, [], ◌∷◌, All,
}
use xilinx_unittests.Xvec.{Event, Vec}
use xilinx_unittests.Validate.{is_init, insert_time, event_times, gap_reasons, check_event_gaps}

-- Each time is below the times after it.
abbrev IsAscending : List ℕ → Type 0
IsAscending [] = Unit
IsAscending (t ∷ ts) = All (λ s. t < s) ts × IsAscending ts

All-insert_time :
    (n t : ℕ) (ts : List ℕ) → n < t → All (λ s. n < s) ts → All (λ s. n < s) (insert_time t ts)
unfolding insert_time
All-insert_time n t [] h a = (h, tt)
All-insert_time n t (s ∷ ts) h a = elim (Bool-cases (t == s)) [
  | inl q ↦ rw q a
  | inr q ↦ elim (Bool-cases (ltb t s)) [
    | inl r ↦ rw (q, r) (h, a)
    | inr r ↦ rw (q, r) (a.0, All-insert_time n t ts h a.1)
  ]
]

All-below : (t s : ℕ) (ts : List ℕ) → t < s → All (λ x. s < x) ts → All (λ x. t < x) ts
All-below t s [] h a = tt
All-below t s (x ∷ ts) h a = (omega arith, All-below t s ts h a.1)

insert_time-IsAscending : (t : ℕ) (ts : List ℕ) → IsAscending ts → IsAscending (insert_time t ts)
unfolding insert_time
insert_time-IsAscending t [] h = (tt, tt)
insert_time-IsAscending t (s ∷ ts) h = elim (Bool-cases (t == s)) [
  | inl q ↦ rw q h
  | inr q ↦ elim (Bool-cases (ltb t s)) [
    | inl r ↦ let lt : t < s = ground arith in rw (q, r) ((lt, All-below t s ts lt h.0), h)
    | inr r ↦
        rw (q, r) (All-insert_time s t ts (ground arith) h.0, insert_time-IsAscending t ts h.1)
  ]
]

event_times-IsAscending : (es : List Event) → IsAscending (event_times es)
unfolding event_times
event_times-IsAscending [] = tt
event_times-IsAscending (e ∷ es) = elim (Bool-cases (is_init e)) [
  | inl q ↦ rw q (event_times-IsAscending es)
  | inr q ↦ rw q (insert_time-IsAscending e.t (event_times es) (event_times-IsAscending es))
]

mem-insert_time : (x t : ℕ) (ts : List ℕ) → Memᴰ x (insert_time t ts) → (x ≡ t) ⊎ Memᴰ x ts
unfolding insert_time
mem-insert_time x t [] m = MemD.cases_cons m
mem-insert_time x t (s ∷ ts) m = elim (Bool-cases (t == s)) [
  | inl q ↦ inr (rw q at m)
  | inr q ↦ elim (Bool-cases (ltb t s)) [
    | inl r ↦ MemD.cases_cons (rw (q, r) at m)
    | inr r ↦ elim (MemD.cases_cons (rw (q, r) at m)) [
      | inl e ↦ inr (MemD.head e)
      | inr k ↦ elim (mem-insert_time x t ts k) [ inl e ↦ inl e | inr l ↦ inr (MemD.tail l) ]
    ]
  ]
]

-- Every time that is compared is the time of an event.
mem-event_times :
    (x : ℕ) (es : List Event) → Memᴰ x (event_times es) → (e : Event) × Memᴰ e es × (x ≡ e.t)
unfolding event_times
mem-event_times x [] m = absurd (MemD.not-nil m)
mem-event_times x (e ∷ es) m = elim (Bool-cases (is_init e)) [
  | inl q ↦ let (f, k, s) = mem-event_times x es (rw q at m) in (f, MemD.tail k, s)
  | inr q ↦ elim (mem-insert_time x e.t (event_times es) (rw q at m)) [
    | inl s ↦ (e, MemD.head refl, s)
    | inr k ↦ let (f, l, s) = mem-event_times x es k in (f, MemD.tail l, s)
  ]
]

gap_reasons_none :
    (gap : ℕ) (ts : List ℕ)
    → IsAscending ts
    → ((s t : ℕ) → Memᴰ s ts → Memᴰ t ts → s < t → s + gap ≤ t)
    → gap_reasons gap ts ≡ []
unfolding gap_reasons
gap_reasons_none gap [] a h = refl
gap_reasons_none gap (s ∷ []) a h = refl
gap_reasons_none gap (s ∷ t ∷ ts) a h =
    let far = h s t (MemD.head refl) (MemD.tail (MemD.head refl)) a.0.0 in
    ground
      (arith, far, gap_reasons_none gap (t ∷ ts) a.1 (λ x y m k. h x y (MemD.tail m) (MemD.tail k)))

-- Where an event before another is at least `gap` before it, no gap is a reason.
pub check_event_gaps_none :
    (v : Vec) (gap : ℕ)
    → ((e f : Event) → Memᴰ e v.events → Memᴰ f v.events → e.t < f.t → e.t + gap ≤ f.t)
    → check_event_gaps v gap ≡ []
unfolding check_event_gaps
check_event_gaps_none v gap h =
    gap_reasons_none gap (event_times v.events) (event_times-IsAscending v.events) (λ s t m k lt.
      let (e, me, se) = mem-event_times s v.events m in
      let (f, mf, sf) = mem-event_times t v.events k in
      let far = h e f me mf (omega arith) in omega arith)
