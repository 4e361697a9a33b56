-- ===== src/Xvec/FreeClocks/Runs.antt =====
-- `free_clock_edges` makes the edges of every run of a free clock, in the order of time.
use xilinx_unittests.Prelude.{
  ℕ, zero, suc, ◌≤◌, ◌<◌, ◌↔◌, inl, inr, refl, ap, subst, arith, Option, none, some, List, [], ◌∷◌,
  All, IsSorted, sort_by-IsSorted, mem-sort_by,
}
use mathlib.Core.List.{Memᴰ}
use mathlib.Core.List.Memᴰ as MemD
use xilinx_unittests.Xvec.{Clock, Event, Vec}
use xilinx_unittests.Xvec.FreeClocks.{
  Run, edges_to, limit_of, edges_of_runs, last_time, free_runs, free_clock_edges,
}
use xilinx_unittests.Xvec.FreeClocks.Edges.{IsEdge, edges_iff}

-- An edge of a run: none at or after its stop, and none after the last event.
abbrev pub IsEdgeTo : Option ℕ → Run → Event → Type 0
IsEdgeTo none r e = ⊥
IsEdgeTo (some limit) r e = IsEdge r.clock limit r.start e

abbrev pub IsRunEdge : ℕ → Run → Event → Type 0
IsRunEdge last r e = IsEdgeTo (limit_of last r.stop) r e

abbrev pub HasPeriod : Run → Type 0
HasPeriod r = 0 < r.clock.period

edges_to_iff :
    (o : Option ℕ) (r : Run) (e : Event)
    → HasPeriod r
    → Memᴰ e (edges_to o r.clock r.start) ↔ IsEdgeTo o r e
edges_to_iff none r e p = (λ h. absurd (MemD.not-nil h), λ h. absurd h)
edges_to_iff (some limit) r e p = edges_iff (suc limit) r.clock limit r.start e p (omega arith)

edges_of_runs_iff :
    (last : ℕ) (rs : List Run) (e : Event)
    → All HasPeriod rs
    → Memᴰ e (edges_of_runs last rs) ↔ ((r : Run) × Memᴰ r rs × IsRunEdge last r e)
unfolding edges_of_runs
edges_of_runs_iff last [] e p = (λ h. absurd (MemD.not-nil h), λ h. absurd (MemD.not-nil h.1))
edges_of_runs_iff last (r ∷ rs) e p = (
  λ h. elim (MemD.append_cases (edges_to (limit_of last r.stop) r.clock r.start) h) [
    | inl m ↦ (r, MemD.head refl, (edges_to_iff (limit_of last r.stop) r e p.0).0 m)
    | inr m ↦
        let (x, inside, edge) = (edges_of_runs_iff last rs e p.1).0 m in (x, MemD.tail inside, edge)
  ],
  λ h.
      let (x, inside, edge) = h in
      elim (MemD.cases_cons inside) [
        | inl same ↦ MemD.append_left (edges_of_runs last rs) (
            (edges_to_iff (limit_of last r.stop) r e p.0).1
              (subst (λ y. IsRunEdge last y e) same edge))
        | inr later ↦
            MemD.append_right (edges_to (limit_of last r.stop) r.clock r.start)
              ((edges_of_runs_iff last rs e p.1).1 (x, later, edge))
      ],
)

-- For a stimulus whose runs have a period, an event is one of the free-clock edges exactly where it
-- is an edge of some run: a rise a whole number of periods after the start, or the fall a high
-- phase later, before the stop and not after the last event.
pub free_clock_edges_iff :
    (v : Vec) (e : Event)
    → All HasPeriod (free_runs v)
    → Memᴰ e (free_clock_edges v)
      ↔ ((r : Run) × Memᴰ r (free_runs v) × IsRunEdge (last_time v.events) r e)
unfolding free_clock_edges
free_clock_edges_iff v e p =
    let es = edges_of_runs (last_time v.events) (free_runs v) in
    let sorted = mem-sort_by (λ (x : Event). x.t) e es in
    let made = edges_of_runs_iff (last_time v.events) (free_runs v) e p in
    (λ h. made.0 (sorted.0 h), λ h. sorted.1 (made.1 h))

IsEdge-le :
    (c : Clock) (limit start : ℕ) (e : Event)
    → IsEdge c limit start e
    → (start ≤ e.t) × (e.t ≤ limit)
IsEdge-le c limit start e (IsEdge.is_rise k fits same) =
    let at_time = ap (λ (x : Event). x.t) same in (omega arith, omega arith)
IsEdge-le c limit start e (IsEdge.is_fall k fits same) =
    let at_time = ap (λ (x : Event). x.t) same in (omega arith, omega arith)

-- The stop of a run and the last event bound its edges.
abbrev pub InWindow : ℕ → Run → Event → Type 0
InWindow last r e = (r.start ≤ e.t) × (elim r.stop [ none ↦ e.t ≤ last | some s ↦ e.t < s ])

IsEdgeTo-InWindow :
    (last : ℕ) (c : Clock) (start : ℕ) (stop : Option ℕ) (e : Event)
    → let r : Run = record { clock = c; start = start; stop = stop } in
      IsRunEdge last r e → InWindow last r e
IsEdgeTo-InWindow last c start none e h = IsEdge-le c last start e h
IsEdgeTo-InWindow last c start (some zero) e h = absurd h
IsEdgeTo-InWindow last c start (some (suc s)) e h =
    let bounds = IsEdge-le c s start e h in (bounds.0, omega arith)

-- For a stimulus whose runs have a period, the free-clock edges come in the order of time, and each
-- belongs to a run that has started by then and has not stopped.
pub free_clock_edges_window :
    (v : Vec)
    → All HasPeriod (free_runs v)
    → IsSorted (λ e. e.t) (free_clock_edges v)
      × ((e : Event)
          → Memᴰ e (free_clock_edges v)
          → (r : Run) × Memᴰ r (free_runs v) × InWindow (last_time v.events) r e)
unfolding free_clock_edges
free_clock_edges_window v p = (
  sort_by-IsSorted (λ e. e.t) (edges_of_runs (last_time v.events) (free_runs v)),
  λ e h.
      let (r, inside, edge) = (free_clock_edges_iff v e p).0 h in
      (r, inside, IsEdgeTo-InWindow (last_time v.events) r.clock r.start r.stop e edge),
)
