-- ===== src/Validate/Whole/Known.antt =====
-- What the rules of the format say of the bits and clocks of the events on the timeline.
use mathlib.Core.List.{Memᴰ}
use mathlib.Core.List.Memᴰ as MemD
use xilinx_unittests.Prelude.{
  ℕ, Bool, true, false, ==_iff, if◌then◌else◌, ◌≡◌, inl, inr, refl, sym, ap, subst, arith,
  Bool-cases, Option, none, some, List, [], ◌∷◌, ◌++◌, All, eq_iff, ok, bind-ok, check-ok,
  mem-sort_by,
}
use xilinx_unittests.Xvec.{Name, Op, Clock, Event, Vec, name_eq, check_op, check_event}
use xilinx_unittests.Xvec.Structure.{check_clocks, check_events}
use xilinx_unittests.Xvec.Structure.Periods.{free_runs-All, free_runs-HasPeriod}
use xilinx_unittests.Xvec.FreeClocks.{Run, limit_of, last_time, free_runs, free_clock_edges}
use xilinx_unittests.Xvec.FreeClocks.Edges.{IsEdge}
use xilinx_unittests.Xvec.FreeClocks.Runs.{IsEdgeTo, IsRunEdge, free_clock_edges_iff}
use xilinx_unittests.Validate.{is_init}
use xilinx_unittests.Validate.Whole.{later_events, timed, start}
use xilinx_unittests.Validate.Whole.Lookups.{Declared, IsKnownAs, IsKnown}
use xilinx_unittests.Validate.Whole.Loop.{All-of_mem}

-- What the rules of the format leave of an event.
module _ (is_label : Name → Bool) (v : Vec) where
  check_op-IsKnown :
      (e : Event) (labels after : List Name) (op : Op)
      → check_op is_label v e labels op ≡ ok after
      → IsKnownAs v.header.nin v.clocks e op
  unfolding check_op
  check_op-IsKnown e labels after Op.set h = ground arith
  check_op-IsKnown e labels after Op.edge h = ground arith
  check_op-IsKnown e labels after Op.glbl h = tt
  check_op-IsKnown e labels after Op.sample h = tt
  check_op-IsKnown e labels after Op.clock_start h = tt
  check_op-IsKnown e labels after Op.clock_stop h = tt
  check_op-IsKnown e labels after Op.end h = tt
  check_op-IsKnown e labels after (Op.unknown o) h = tt

  pub check_event-IsKnown :
      (e : Event) (labels after : List Name)
      → check_event is_label v e labels ≡ ok after
      → IsKnown v.header.nin v.clocks e
  unfolding check_event
  check_event-IsKnown e labels after h =
      check_op-IsKnown e labels after e.op (check-ok _ (check_op is_label v e labels e.op) h).1

  pub check_events-IsKnown :
      (es : List Event) (labels : List Name)
      → check_events is_label v es labels ≡ ok tt
      → All (IsKnown v.header.nin v.clocks) es
  unfolding check_events
  check_events-IsKnown [] labels h = tt
  check_events-IsKnown (e ∷ es) labels h =
      let (after, here, rest) =
        bind-ok (check_event is_label v e labels) (check_events is_label v es) h in
      (check_event-IsKnown e labels after here, check_events-IsKnown es after rest)

name_eq_refl : (n : Name) → name_eq n n ≡ true
name_eq_refl (Name.clk n) = (==_iff n n).1 refl
name_eq_refl (Name.auto n) = (==_iff n n).1 refl
name_eq_refl (Name.word s) = (eq_iff s s).1 refl

Declared-later :
    (c : Clock) (cs ds : List Clock)
    → All (λ (d : Clock). Declared cs d.name) ds
    → All (λ (d : Clock). Declared (c ∷ cs) d.name) ds
Declared-later c cs [] h = tt
Declared-later c cs (d ∷ ds) h = elim (Bool-cases (name_eq c.name d.name)) [
  | inl q ↦ (rw q refl, Declared-later c cs ds h.1)
  | inr q ↦ (rw q h.0, Declared-later c cs ds h.1)
]

All-Declared : (cs : List Clock) → All (λ (d : Clock). Declared cs d.name) cs
All-Declared [] = tt
All-Declared (c ∷ cs) = (rw (name_eq_refl c.name) refl, Declared-later c cs cs (All-Declared cs))

All-mem : (P : Run → Type 0) (rs : List Run) (r : Run) → All P rs → Memᴰ r rs → P r
All-mem P [] r a m = absurd (MemD.not-nil m)
All-mem P (x ∷ rs) r a m = elim (MemD.cases_cons m) [
  | inl q ↦ subst P (sym q) a.0
  | inr k ↦ All-mem P rs r a.1 k
]

IsEdge-target :
    (c : Clock) (limit start : ℕ) (e : Event)
    → IsEdge c limit start e
    → (e.op ≡ Op.edge) × (e.target ≡ c.name)
IsEdge-target c limit start e (IsEdge.is_rise k fits same) =
    (ap (λ (x : Event). x.op) same, ap (λ (x : Event). x.target) same)
IsEdge-target c limit start e (IsEdge.is_fall k fits same) =
    (ap (λ (x : Event). x.op) same, ap (λ (x : Event). x.target) same)

IsRunEdge-target :
    (last : ℕ) (r : Run) (e : Event)
    → IsRunEdge last r e
    → (e.op ≡ Op.edge) × (e.target ≡ r.clock.name)
IsRunEdge-target last r e h = by_limit (limit_of last r.stop) h
  where
    by_limit : (o : Option ℕ) → IsEdgeTo o r e → (e.op ≡ Op.edge) × (e.target ≡ r.clock.name)
    by_limit none h = absurd h
    by_limit (some limit) h = IsEdge-target r.clock limit r.start e h

pub free_clock_edges-IsKnown :
    (v : Vec) (nin : ℕ)
    → check_clocks v.header v.clocks [] ≡ ok tt
    → All (IsKnown nin v.clocks) (free_clock_edges v)
free_clock_edges-IsKnown v nin h = All-of_mem (IsKnown nin v.clocks) (free_clock_edges v) (λ e m.
    let (r, inside, edge) = (free_clock_edges_iff v e (free_runs-HasPeriod v h)).0 m in
    let (is_edge, target) = IsRunEdge-target (last_time v.events) r e edge in
    let known =
      All-mem (λ (x : Run). Declared v.clocks x.clock.name) (free_runs v) r
        (free_runs-All (λ (c : Clock). Declared v.clocks c.name) v (All-Declared v.clocks))
        inside in
    subst (IsKnownAs nin v.clocks e) (sym is_edge) (subst (Declared v.clocks) (sym target) known))

later_events-All : (P : Event → Type 0) (es : List Event) → All P es → All P (later_events es)
later_events-All P [] h = tt
later_events-All P (e ∷ es) h = All-unless (is_init e) (later_events es) (later_events-All P es h.1)
  where
    All-unless : (b : Bool) (rest : List Event) → All P rest → All P (if b then rest else e ∷ rest)
    All-unless true rest a = a
    All-unless false rest a = (h.0, a)

All-append : (P : Event → Type 0) (es fs : List Event) → All P es → All P fs → All P (es ++ fs)
All-append P [] fs h k = k
All-append P (e ∷ es) fs h k = (h.0, All-append P es fs h.1 k)

All-get : (P : Event → Type 0) (es : List Event) (e : Event) → All P es → Memᴰ e es → P e
All-get P [] e a m = absurd (MemD.not-nil m)
All-get P (x ∷ es) e a m = elim (MemD.cases_cons m) [
  | inl q ↦ subst P (sym q) a.0
  | inr k ↦ All-get P es e a.1 k
]

pub timed-All :
    (P : Event → Type 0) (v : Vec) → All P v.events → All P (free_clock_edges v) → All P (timed v)
timed-All P v h k =
    let all_of = later_events v.events ++ free_clock_edges v in
    let both =
      All-append P (later_events v.events) (free_clock_edges v) (later_events-All P v.events h) k in
    All-of_mem P (timed v)
      (λ e m. All-get P all_of e both ((mem-sort_by (λ (x : Event). x.t) e all_of).0 m))
