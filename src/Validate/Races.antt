-- ===== src/Validate/Races.antt =====
-- The rules of tools/xut/validate.py on what may race with a change: the nearest clock edge, glbl's
-- release of GSR, and the stops of free-running clocks.
pub mod Release
pub mod Stops
use xilinx_unittests.Prelude.{
  ℕ, zero, suc, ◌+◌, ◌-◌, ◌*◌, ◌/◌, ◌%◌, Bool, true, false, not, ◌&&◌, ◌||◌, ◌==◌, ltb, leb,
  if◌then◌else◌, Option, none, some, List, [], ◌∷◌, ◌++◌, take, drop, map,
}
use xilinx_unittests.Xvec.{Name, Event, Vec, name_eq}
use xilinx_unittests.Xvec.FreeClocks.{Run, is_start, high_ps, free_runs}
use xilinx_unittests.Validate.{roc_width_ps, insert_time}

-- `abs(a - b)`
abbrev pub distance : ℕ → ℕ → ℕ
distance a b = (a - b) + (b - a)

-- `bisect.bisect_left`, on an ascending list: how many entries are smaller.
unfoldable pub bisect_left : List ℕ → ℕ → ℕ
bisect_left [] t = 0
bisect_left (x ∷ xs) t = let rest = bisect_left xs t in if ltb x t then suc rest else 0

-- `<` on pairs.
abbrev pub pair_before : ℕ × ℕ → ℕ × ℕ → Bool
pair_before p q = ltb p.0 q.0 || p.0 == q.0 && ltb p.1 q.1

-- `min` of a list, none of the empty one.
abbrev pub least_of : ℕ × ℕ → List (ℕ × ℕ) → ℕ × ℕ
least_of p [] = p
least_of p (q ∷ qs) = least_of (if pair_before q p then q else p) qs

abbrev pub least : List (ℕ × ℕ) → Option (ℕ × ℕ)
least [] = none
least (p ∷ ps) = some (least_of p ps)

-- `ts[max(0, i - 1) : i + 1]`
abbrev pub around : ℕ → List ℕ → List ℕ
around zero ts = take 1 ts
around (suc i) ts = take 2 (drop i ts)

-- `_nearest`
unfoldable pub nearest : List ℕ → ℕ → Option (ℕ × ℕ)
unfolding bisect_left
nearest ts t = least (map (λ x. (distance x t, x)) (around (bisect_left ts t) ts))

pub data RaceError : Type 0 where
  races_release : ℕ → RaceError
  stop_not_low : ℕ → Name → RaceError
  start_too_early : ℕ → Name → RaceError

-- `sorted({e.t for e in es})`
unfoldable pub times : List Event → List ℕ
times [] = []
times (e ∷ es) = insert_time e.t (times es)

unfoldable pub release_errors : ℕ → List ℕ → List RaceError
release_errors sep [] = []
release_errors sep (t ∷ ts) =
    let rest = release_errors sep ts in
    if ltb (distance t roc_width_ps) sep then RaceError.races_release t ∷ rest else rest

-- `_check_gsr_release`
unfoldable pub check_gsr_release : List Event → ℕ → List RaceError
check_gsr_release timed sep = release_errors sep (times timed)

-- The first `clock_start` of the clock after its stop.
unfoldable pub restart : Name → ℕ → List Event → Option ℕ
restart n stop [] = none
restart n stop (e ∷ es) =
    let later = restart n stop es in
    if is_start e.op && (name_eq e.target n && ltb stop e.t) then some e.t else later

abbrev pub restart_errors : Name → ℕ → Option ℕ → List RaceError
restart_errors n low_ends none = []
restart_errors n low_ends (some t) =
    if ltb t low_ends then RaceError.start_too_early t n ∷ [] else []

-- `(stop - start) % period`, also where the stop is before the start, for a period that is not 0.
abbrev pub phase_at : ℕ → ℕ → ℕ → ℕ
phase_at period start stop = (stop + start * (period - 1)) % period

-- The body of `_check_free_stops`, for a run that stops. A run's clock has a period.
unfoldable pub stop_errors : List Event → Run → Option ℕ → List RaceError
unfolding restart
stop_errors es r none = []
stop_errors es r (some stop) =
    let pos = phase_at r.clock.period r.start stop in
    (if ltb (high_ps r.clock) pos then [] else RaceError.stop_not_low stop r.clock.name ∷ [])
    ++ restart_errors r.clock.name (stop + (r.clock.period - pos)) (restart r.clock.name stop es)

unfoldable pub runs_errors : List Event → List Run → List RaceError
unfolding stop_errors
runs_errors es [] = []
runs_errors es (r ∷ rs) = stop_errors es r r.stop ++ runs_errors es rs

-- `_check_free_stops`
unfoldable pub check_free_stops : Vec → List RaceError
unfolding runs_errors
check_free_stops v = runs_errors v.events (free_runs v)
