-- ===== src/Xvec/Structure/Checkable.antt =====
-- `checkable` keeps the part of a stimulus that the rules for one item accept.
use xilinx_unittests.Prelude.{
  ℕ, ◌≤◌, ◌≡◌, refl, arith, inl, inr, List, [], ◌∷◌, All, Bool, false, any, Result, ok, err,
  bind-ok, check-ok, IsSorted, sort_by_of_IsSorted, sort_by-IsSorted, mem-sort_by, ap, ◌∙◌,
}
use mathlib.Core.List.{Memᴰ}
use mathlib.Core.List.Memᴰ as MemD
use xilinx_unittests.Xvec.{
  Name, Clock, Event, Header, Vec, Op, check_clock, check_op, check_event, Error, name_eq,
}
use xilinx_unittests.Xvec.Timing.Legal.{IsOrdered, check_timing_iff}
use xilinx_unittests.Xvec.FreeClocks.{sort_events}
use xilinx_unittests.Xvec.Structure.{
  check_clocks, check_events, check_rules, names_after, keep_clock, keep_clocks, keep_event,
  keep_events, checkable,
}

-- A clock that passes is in the names from then on.
check_clock-names_after :
    (h : Header) (c : Clock) (names after : List Name)
    → check_clock h c names ≡ ok after
    → names_after h c names ≡ after
unfolding check_clock names_after
check_clock-names_after h c names after e = ground arith

keep_clocks_of_legal :
    (h : Header) (cs : List Clock) (names : List Name)
    → check_clocks h cs names ≡ ok tt
    → keep_clocks h cs names ≡ cs
unfolding check_clocks keep_clocks
keep_clocks_of_legal h [] names e = refl
keep_clocks_of_legal h (c ∷ cs) names e =
    let (after, here, rest) = bind-ok (check_clock h c names) (check_clocks h cs) e in
    rw (here, check_clock-names_after h c names after here)
      (rw (keep_clocks_of_legal h cs after rest))

-- What is declared in the first is declared in the second.
abbrev Within : List Name → List Name → Type 0
Within few names = (n : Name) → any (name_eq n) names ≡ false → any (name_eq n) few ≡ false

check_clock-added :
    (h : Header) (c : Clock) (names after : List Name)
    → check_clock h c names ≡ ok after
    → after ≡ c.name ∷ names
unfolding check_clock
check_clock-added h c names after e = ground arith

-- A clock that passes beside some names passes beside fewer.
check_clock-Within :
    (h : Header) (c : Clock) (few names after : List Name)
    → Within few names
    → check_clock h c names ≡ ok after
    → check_clock h c few ≡ ok (c.name ∷ few)
unfolding check_clock
check_clock-Within h c few names after w e = ground (arith, w c.name)

Within-cons : (x : Name) (few names : List Name) → Within few names → Within (x ∷ few) (x ∷ names)
Within-cons x few names w n e = ground (arith, w n)

-- The names after a clock hold those before it, and the clock's own where it passes.
names_after-Within :
    (h : Header) (c : Clock) (few names : List Name)
    → Within few names
    → Within few (names_after h c names)
unfolding names_after
names_after-Within h c few names w n e = ground (arith, w n)

-- The clocks that are kept pass the rules together: the names that `checkable` goes on with are at
-- least theirs.
keep_clocks-ok :
    (h : Header) (cs : List Clock) (few names : List Name)
    → Within few names
    → check_clocks h (keep_clocks h cs names) few ≡ ok tt
unfolding check_clocks keep_clocks
keep_clocks-ok h [] few names w = refl
keep_clocks-ok h (c ∷ cs) few names w =
    step (check_clock h c names) refl (λ f. keep_clocks-ok h cs f (names_after h c names))
  where
    step :
        (r : Result Error (List Name))
        → check_clock h c names ≡ r
        → ((f : List Name)
            → Within f (names_after h c names)
            → check_clocks h (keep_clocks h cs (names_after h c names)) f ≡ ok tt)
        → check_clocks h (keep_clock c (keep_clocks h cs (names_after h c names)) r) few ≡ ok tt
    step (ok after) here ih =
        rw (check_clock-Within h c few names after w here) (ih (c.name ∷ few) (kept after here))
      where
        kept :
            (after : List Name)
            → check_clock h c names ≡ ok after
            → Within (c.name ∷ few) (names_after h c names)
        kept after here =
            rw
              (check_clock-names_after h c names after here
                ∙ check_clock-added h c names after here)
              (Within-cons c.name few names w)
    step (err x) here ih = ih few (names_after-Within h c few names w)

from_first :
    (n : ℕ) (f : Event) (es : List Event)
    → n ≤ f.t
    → IsOrdered (f ∷ es)
    → All (λ (x : Event). n ≤ x.t) (f ∷ es)
from_first n f [] h o = (h, tt)
from_first n f (g ∷ es) h o = (h, from_first n g es (omega arith) o.2)

IsOrdered-IsSorted : (es : List Event) → IsOrdered es → IsSorted (λ (e : Event). e.t) es
IsOrdered-IsSorted [] o = tt
IsOrdered-IsSorted (e ∷ []) o = (tt, tt)
IsOrdered-IsSorted (e ∷ f ∷ es) o = (from_first e.t f es o.1 o.2, IsOrdered-IsSorted (f ∷ es) o.2)

module _ (is_label : Name → Bool) where
  abbrev seen : Event → Op → List Name
  seen e Op.sample = e.target ∷ []
  seen e _ = []

  check_op-alone :
      (v w : Vec) (e : Event) (labels after : List Name) (o : Op)
      → w.header ≡ v.header
      → w.clocks ≡ v.clocks
      → check_op is_label v e labels o ≡ ok after
      → check_op is_label w e [] o ≡ ok (seen e o)
  unfolding check_op
  check_op-alone v w e labels after Op.sample h c q = ground arith
  check_op-alone v w e labels after Op.set h c q = rw h (ground arith)
  check_op-alone v w e labels after Op.edge h c q = rw c (ground arith)
  check_op-alone v w e labels after Op.clock_start h c q = rw c (ground arith)
  check_op-alone v w e labels after Op.clock_stop h c q = rw c (ground arith)
  check_op-alone v w e labels after _ h c q = ground arith

  -- The labels seen before matter to a `sample` alone, and the events of the file to no rule.
  check_event-alone :
      (v w : Vec) (e : Event) (labels after : List Name)
      → w.header ≡ v.header
      → w.clocks ≡ v.clocks
      → check_event is_label v e labels ≡ ok after
      → check_event is_label w e [] ≡ ok (seen e e.op)
  unfolding check_event
  check_event-alone v w e labels after h c q =
      let (early, rest) = check-ok _ (check_op is_label v e labels e.op) q in
      simp (h, early) (check_op-alone v w e labels after e.op h c rest)

  keep_events_of_legal :
      (v w : Vec) (es : List Event) (labels : List Name)
      → w.header ≡ v.header
      → w.clocks ≡ v.clocks
      → check_events is_label v es labels ≡ ok tt
      → keep_events is_label w es ≡ es
  unfolding check_events keep_events
  keep_events_of_legal v w [] labels h c q = refl
  keep_events_of_legal v w (e ∷ es) labels h c q =
      let (after, here, rest) =
        bind-ok (check_event is_label v e labels) (check_events is_label v es) q in
      rw (check_event-alone v w e labels after h c here)
        (ap (λ r. e ∷ r) (keep_events_of_legal v w es after h c rest))

  -- A stimulus that passes all the rules is its own checkable part.
  pub checkable_of_legal : (v : Vec) → check_rules is_label v ≡ ok tt → checkable is_label v ≡ v
  unfolding checkable check_rules
  checkable_of_legal v q =
      let (clocks, more) = check-ok (check_clocks v.header v.clocks []) _ q in
      let (events, timing) = check-ok (check_events is_label v v.events []) _ more in
      let kept = keep_clocks_of_legal v.header v.clocks [] clocks in
      let w = record v { clocks = keep_clocks v.header v.clocks []; events = [] } in
      let same = keep_events_of_legal v w v.events [] refl kept events in
      let order = IsOrdered-IsSorted v.events ((check_timing_iff v.events).0 timing).0 in
      let sorted = ap sort_events same ∙ sort_by_of_IsSorted (λ (e : Event). e.t) v.events order in
      λ i. record v { clocks = kept i; events = sorted i }

  mem-keep_events :
      (w : Vec) (e : Event) (es : List Event)
      → Memᴰ e (keep_events is_label w es)
      → (n : List Name) × (check_event is_label w e [] ≡ ok n)
  unfolding keep_events
  mem-keep_events w e [] h = absurd (MemD.not-nil h)
  mem-keep_events w e (x ∷ es) h =
      step (check_event is_label w x []) refl (mem-keep_events w e es) h
    where
      step :
          (r : Result Error (List Name))
          → check_event is_label w x [] ≡ r
          → (Memᴰ e (keep_events is_label w es)
              → (n : List Name) × (check_event is_label w e [] ≡ ok n))
          → Memᴰ e (keep_event is_label x (keep_events is_label w es) r)
          → (n : List Name) × (check_event is_label w e [] ≡ ok n)
      step (err y) q ih m = ih m
      step (ok n) q ih m = elim (MemD.cases_cons m) [
        | inl same ↦ (n, rw same q)
        | inr rest ↦ ih rest
      ]

  -- Whatever the stimulus, the clocks of its checkable part pass their rules together, each of its
  -- events passes the rules for one event, and its times never decrease.
  pub checkable-clean :
      (v : Vec)
      → (check_clocks v.header (checkable is_label v).clocks [] ≡ ok tt)
        × ((e : Event)
            → Memᴰ e (checkable is_label v).events
            → (n : List Name) × (check_event is_label (checkable is_label v) e [] ≡ ok n))
        × IsSorted (λ (e : Event). e.t) (checkable is_label v).events
  unfolding checkable
  checkable-clean v =
      let w = record v { clocks = keep_clocks v.header v.clocks []; events = [] } in
      let es = keep_events is_label w v.events in
      (
        keep_clocks-ok v.header v.clocks [] [] (λ n e. refl),
        λ e h.
            let (n, q) =
              mem-keep_events w e v.events ((mem-sort_by (λ (x : Event). x.t) e es).0 h) in
            (seen e e.op, check_event-alone w (checkable is_label v) e [] n refl refl q),
        sort_by-IsSorted (λ (x : Event). x.t) es,
      )

  pub checkable-header : (v : Vec) → (checkable is_label v).header ≡ v.header
  unfolding checkable
  checkable-header v = refl
