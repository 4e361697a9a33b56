-- ===== src/Xvec/Timing.antt =====
-- `_check_structure` of tools/xut/formats/xvec.py: time order, `end` last, and the events that share
-- a time. What it accepts is in the modules below.
pub mod Groups
pub mod Legal
use xilinx_unittests.Prelude.{
  ℕ, Bool, true, false, not, ◌&&◌, ◌||◌, ◌==◌, ltb, leb, if◌then◌else◌, List, [], ◌∷◌, ◌++◌, any,
  all, Result, ok, err, ◌>>=◌, ◌>>◌, refuse,
}
use xilinx_unittests.Xvec.{Event, Error, is_set, is_end, is_nil}

-- The first loop, from an event to the one after it.
unfoldable pub check_order : List Event → Result Error (Unit {0})
check_order [] = ok tt
check_order (e ∷ []) = ok tt
check_order (e ∷ f ∷ es) = do
  refuse (is_end e.op) Error.end_not_last
  refuse (ltb f.t e.t) Error.time_backwards
  check_order (f ∷ es)

-- `groups.setdefault(e.t, []).append(e)`, over a dictionary in the order of its first insertions.
abbrev pub Groups : Type 0
Groups = List (ℕ × List Event)

unfoldable pub add_to_group : Event → Groups → Groups
add_to_group e [] = (e.t, e ∷ []) ∷ []
add_to_group e ((t, g) ∷ gs) =
    if t == e.t then (t, g ++ e ∷ []) ∷ gs else (t, g) ∷ add_to_group e gs

unfoldable pub group_from : Groups → List Event → Groups
group_from gs [] = gs
group_from gs (e ∷ es) = group_from (add_to_group e gs) es

abbrev pub marked : Event → Bool
marked e = e.simultaneous

abbrev pub unmarked : Event → Bool
unmarked e = not e.simultaneous

abbrev pub overlap : Event → Event → Bool
overlap a b = leb a.lsb b.msb && leb b.lsb a.msb

-- Some two events of the list overlap.
abbrev pub any_overlap : List Event → Bool
any_overlap [] = false
any_overlap (e ∷ es) = any (overlap e) es || any_overlap es

-- The body of the second loop, for the events at one time.
unfoldable pub check_group : List Event → Result Error (Unit {0})
check_group [] = ok tt
check_group (e ∷ []) = refuse e.simultaneous Error.lone_simultaneous
check_group (e ∷ f ∷ es) =
    let g = e ∷ f ∷ es in
    do
      refuse (any unmarked g && any marked g) Error.mixed_marking
      (if all (λ x. is_set x.op) g
          then refuse (any_overlap g) Error.overlapping_sets
          else refuse (any unmarked g) Error.unmarked_cotimed)

unfoldable pub check_groups : Groups → Result Error (Unit {0})
check_groups [] = ok tt
check_groups ((t, g) ∷ gs) = check_group g >> check_groups gs

unfoldable pub check_timing : List Event → Result Error (Unit {0})
check_timing es = check_order es >> check_groups (group_from [] es)
