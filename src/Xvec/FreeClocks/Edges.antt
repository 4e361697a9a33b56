-- ===== src/Xvec/FreeClocks/Edges.antt =====
-- The loop of `free_clock_edges` for one run: which edges it makes, and that its fuel is enough.
use xilinx_unittests.Prelude.{
  ℕ, zero, suc, ◌+◌, ◌*◌, ◌≤◌, ◌<◌, leb, ◌≡◌, ◌↔◌, inl, inr, arith, Bool-cases, leb→le, le→leb,
}
use mathlib.Core.List.{Memᴰ}
use mathlib.Core.List.Memᴰ as MemD
use xilinx_unittests.Xvec.{Clock, Event}
use xilinx_unittests.Xvec.FreeClocks.{rise, fall, high_ps, edges}

-- An edge of a clock that starts at `start` and makes none after `limit`: in some period `k`, the
-- rise at its begin or the fall after the high phase.
pub data IsEdge (c : Clock) (limit start : ℕ) (e : Event) : Type 0 where
  is_rise :
      (k : ℕ)
      → start + k * c.period ≤ limit
      → e ≡ rise c (start + k * c.period)
      → IsEdge c limit start e
  is_fall :
      (k : ℕ)
      → start + k * c.period + high_ps c ≤ limit
      → e ≡ fall c (start + k * c.period + high_ps c)
      → IsEdge c limit start e

later : (s p k : ℕ) → s + p + k * p ≡ s + suc k * p
later s p k = grind arith

at_start : (s p : ℕ) → s + 0 * p ≡ s
at_start s p = omega arith

IsEdge-later :
    (c : Clock) (limit start : ℕ) (e : Event)
    → IsEdge c limit (start + c.period) e
    → IsEdge c limit start e
IsEdge-later c limit start e (is_rise k fits same) =
    is_rise (suc k) (grind arith) (rw (later start c.period k) at same)
IsEdge-later c limit start e (is_fall k fits same) =
    is_fall (suc k) (grind arith) (rw (later start c.period k) at same)

edges-IsEdge :
    (fuel : ℕ) (c : Clock) (limit t : ℕ) (e : Event)
    → Memᴰ e (edges fuel c limit t)
    → IsEdge c limit t e
unfolding edges
edges-IsEdge zero c limit t e h = absurd (MemD.not-nil h)
edges-IsEdge (suc fuel) c limit t e h = elim (Bool-cases (leb t limit)) [
  | inr over ↦ absurd (MemD.not-nil (rw over at h))
  | inl fits ↦ elim (MemD.cases_cons (rw fits at h)) [
    | inl first ↦ is_rise 0 (omega (arith, leb→le t limit fits)) (rw (at_start t c.period) first)
    | inr rest ↦ elim (Bool-cases (leb (t + high_ps c) limit)) [
      | inl inside ↦ elim (MemD.cases_cons (rw inside at rest)) [
        | inl second ↦
            is_fall 0 (omega (arith, leb→le (t + high_ps c) limit inside))
              (rw (at_start t c.period) second)
        | inr more ↦ IsEdge-later c limit t e (edges-IsEdge fuel c limit (t + c.period) e more)
      ]
      | inr outside ↦
          IsEdge-later c limit t e (edges-IsEdge fuel c limit (t + c.period) e (rw outside at rest))
    ]
  ]
]

edges-later :
    (fuel : ℕ) (c : Clock) (limit t : ℕ) (e : Event)
    → t ≤ limit
    → Memᴰ e (edges fuel c limit (t + c.period))
    → Memᴰ e (edges (suc fuel) c limit t)
unfolding edges
edges-later fuel c limit t e fits h =
    rw (le→leb t limit fits) (elim (Bool-cases (leb (t + high_ps c) limit)) [
      | inl inside ↦ rw inside (MemD.tail (MemD.tail h))
      | inr outside ↦ rw outside (MemD.tail h)
    ])

-- Enough fuel is given: every edge of the run is made.
IsEdge-edges :
    (fuel : ℕ) (c : Clock) (limit t : ℕ) (e : Event)
    → 0 < c.period
    → limit < fuel + t
    → IsEdge c limit t e
    → Memᴰ e (edges fuel c limit t)
unfolding edges
IsEdge-edges zero c limit t e p enough (is_rise k fits same) = absurd (omega arith)
IsEdge-edges zero c limit t e p enough (is_fall k fits same) = absurd (omega arith)
IsEdge-edges (suc fuel) c limit t e p enough (is_rise zero fits same) =
    rw (le→leb t limit (omega arith)) (MemD.head (rw (at_start t c.period) at same))
IsEdge-edges (suc fuel) c limit t e p enough (is_rise (suc k) fits same) =
    edges-later fuel c limit t e (omega arith) (
      IsEdge-edges fuel c limit (t + c.period) e p (omega arith)
        (is_rise k (grind arith) (rw (← later t c.period k) at same)))
IsEdge-edges (suc fuel) c limit t e p enough (is_fall zero fits same) =
    rw (le→leb t limit (omega arith), le→leb (t + high_ps c) limit (omega arith))
      (MemD.tail (MemD.head (rw (at_start t c.period) at same)))
IsEdge-edges (suc fuel) c limit t e p enough (is_fall (suc k) fits same) =
    edges-later fuel c limit t e (omega arith) (
      IsEdge-edges fuel c limit (t + c.period) e p (omega arith)
        (is_fall k (grind arith) (rw (← later t c.period k) at same)))

-- With a period and enough fuel the loop makes exactly the edges of the run: a rise at each whole
-- number of periods after the start, a fall one high phase after each rise, up to the limit.
pub edges_iff :
    (fuel : ℕ) (c : Clock) (limit t : ℕ) (e : Event)
    → 0 < c.period
    → limit < fuel + t
    → Memᴰ e (edges fuel c limit t) ↔ IsEdge c limit t e
edges_iff fuel c limit t e p enough =
    (edges-IsEdge fuel c limit t e, IsEdge-edges fuel c limit t e p enough)
