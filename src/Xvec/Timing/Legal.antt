-- ===== src/Xvec/Timing/Legal.antt =====
-- Exactly which stimuli `_check_structure` accepts.
use xilinx_unittests.Prelude.{
  ℕ, ◌≤◌, Bool, true, false, ◌&&◌, ltb, if◌then◌else◌, ◌≡◌, ◌↔◌, ◌⊎◌, inl, inr, refl, arith,
  Bool-cases, List, [], ◌∷◌, any, all, All, Result, ok, ◌>>◌, refuse, check-ok, refuse-ok,
}
use xilinx_unittests.Xvec.{Event, Error, is_set, is_end}
use xilinx_unittests.Xvec.Timing.{
  check_order, group_from, marked, unmarked, overlap, any_overlap, check_group, check_groups,
  check_timing,
}
use xilinx_unittests.Xvec.Timing.Groups.{
  at, get-group_from, group_from-IsKeyed, check_groups-get, check_groups_of_get,
}

-- The rules for the events at one time: the marking is all or nothing, a lone event is unmarked,
-- unmarked events are `set`s of disjoint bits, and so are marked ones if all of them are `set`s.
abbrev pub IsDisjoint : List Event → Type 0
IsDisjoint [] = Unit
IsDisjoint (e ∷ es) = All (λ f. overlap e f ≡ false) es × IsDisjoint es

abbrev pub AreSets : List Event → Type 0
AreSets = All (λ e. is_set e.op ≡ true)

abbrev pub IsLegalGroup : List Event → Type 0
IsLegalGroup [] = Unit
IsLegalGroup (e ∷ []) = e.simultaneous ≡ false
IsLegalGroup (e ∷ f ∷ es) =
    let g = e ∷ f ∷ es in
    (All (λ x. x.simultaneous ≡ false) g × AreSets g × IsDisjoint g)
    ⊎ (All (λ x. x.simultaneous ≡ true) g × (AreSets g → IsDisjoint g))

any-unmarked : (es : List Event) → any unmarked es ≡ false → All (λ x. x.simultaneous ≡ true) es
any-unmarked [] h = tt
any-unmarked (e ∷ es) h = (ground arith, any-unmarked es (ground arith))

any-unmarked_of_All :
    (es : List Event) → All (λ x. x.simultaneous ≡ true) es → any unmarked es ≡ false
any-unmarked_of_All [] h = refl
any-unmarked_of_All (e ∷ es) h = ground (arith, any-unmarked_of_All es h.1)

any-marked : (es : List Event) → any marked es ≡ false → All (λ x. x.simultaneous ≡ false) es
any-marked [] h = tt
any-marked (e ∷ es) h = (ground arith, any-marked es (ground arith))

any-marked_of_All : (es : List Event) → All (λ x. x.simultaneous ≡ false) es → any marked es ≡ false
any-marked_of_All [] h = refl
any-marked_of_All (e ∷ es) h = ground (arith, any-marked_of_All es h.1)

all-set : (es : List Event) → all (λ x. is_set x.op) es ≡ true → AreSets es
all-set [] h = tt
all-set (e ∷ es) h = (ground arith, all-set es (ground arith))

all-set_of_All : (es : List Event) → AreSets es → all (λ x. is_set x.op) es ≡ true
all-set_of_All [] h = refl
all-set_of_All (e ∷ es) h = ground (arith, all-set_of_All es h.1)

any-overlap :
    (e : Event) (es : List Event) → any (overlap e) es ≡ false → All (λ f. overlap e f ≡ false) es
any-overlap e [] h = tt
any-overlap e (f ∷ es) h = (ground arith, any-overlap e es (ground arith))

any-overlap_of_All :
    (e : Event) (es : List Event) → All (λ f. overlap e f ≡ false) es → any (overlap e) es ≡ false
any-overlap_of_All e [] h = refl
any-overlap_of_All e (f ∷ es) h = ground (arith, any-overlap_of_All e es h.1)

any_overlap-IsDisjoint : (es : List Event) → any_overlap es ≡ false → IsDisjoint es
any_overlap-IsDisjoint [] h = tt
any_overlap-IsDisjoint (e ∷ es) h =
    (any-overlap e es (ground arith), any_overlap-IsDisjoint es (ground arith))

any_overlap_of_IsDisjoint : (es : List Event) → IsDisjoint es → any_overlap es ≡ false
any_overlap_of_IsDisjoint [] h = refl
any_overlap_of_IsDisjoint (e ∷ es) h =
    ground (arith, any-overlap_of_All e es h.0, any_overlap_of_IsDisjoint es h.1)

-- The three tests of a group, as one decision.
abbrev decide_group : Bool → Bool → Bool → Bool → Result Error (Unit {0})
decide_group u m s o = do
  refuse (u && m) Error.mixed_marking
  (if s then refuse o Error.overlapping_sets else refuse u Error.unmarked_cotimed)

decide_group-ok :
    (u m s o : Bool)
    → decide_group u m s o ≡ ok tt
    → ((m ≡ false) × (s ≡ true) × (o ≡ false)) ⊎ ((u ≡ false) × (s ≡ true → o ≡ false))
decide_group-ok true true s o h = cc
decide_group-ok true false true true h = cc
decide_group-ok true false true false h = inl (refl, refl, refl)
decide_group-ok true false false o h = cc
decide_group-ok false m true true h = cc
decide_group-ok false m true false h = inr (refl, λ _. refl)
decide_group-ok false m false o h = inr (refl, λ e. cc)

check_group-IsLegalGroup : (g : List Event) → check_group g ≡ ok tt → IsLegalGroup g
unfolding check_group
check_group-IsLegalGroup [] h = tt
check_group-IsLegalGroup (e ∷ []) h = refuse-ok e.simultaneous Error.lone_simultaneous h
check_group-IsLegalGroup (e ∷ f ∷ es) h = found (e ∷ f ∷ es) refl
  where
    found :
        (g : List Event)
        → (g ≡ e ∷ f ∷ es)
        → (All (λ x. x.simultaneous ≡ false) g × AreSets g × IsDisjoint g)
          ⊎ (All (λ x. x.simultaneous ≡ true) g × (AreSets g → IsDisjoint g))
    found g same =
        elim (decide_group-ok (any unmarked g) (any marked g) (all (λ x. is_set x.op) g)
          (any_overlap g) (rw same h)) [
            | inl p ↦ inl (any-marked g p.0, all-set g p.1, any_overlap-IsDisjoint g p.2)
            | inr p ↦
                inr (
                  any-unmarked g p.0,
                  λ sets. any_overlap-IsDisjoint g (p.1 (all-set_of_All g sets)),
                )
          ]

check_group_of_IsLegalGroup : (g : List Event) → IsLegalGroup g → check_group g ≡ ok tt
unfolding check_group
check_group_of_IsLegalGroup [] h = refl
check_group_of_IsLegalGroup (e ∷ []) h = rw h
check_group_of_IsLegalGroup (e ∷ f ∷ es) (inl h) = ground (
  arith,
  any-marked_of_All (e ∷ f ∷ es) h.0,
  all-set_of_All (e ∷ f ∷ es) h.1,
  any_overlap_of_IsDisjoint (e ∷ f ∷ es) h.2,
)
check_group_of_IsLegalGroup (e ∷ f ∷ es) (inr h) =
    let g = e ∷ f ∷ es in
    elim (Bool-cases (all (λ x. is_set x.op) g)) [
      | inl sets ↦ ground (
        arith,
        any-unmarked_of_All g h.0,
        sets,
        any_overlap_of_IsDisjoint g (h.1 (all-set g sets)),
      )
      | inr mixed ↦ ground (arith, any-unmarked_of_All g h.0, mixed)
    ]

-- Times never decrease, and nothing follows an `end`.
abbrev pub IsOrdered : List Event → Type 0
IsOrdered [] = Unit
IsOrdered (e ∷ []) = Unit
IsOrdered (e ∷ f ∷ es) = (is_end e.op ≡ false) × (e.t ≤ f.t) × IsOrdered (f ∷ es)

check_order-IsOrdered : (es : List Event) → check_order es ≡ ok tt → IsOrdered es
unfolding check_order
check_order-IsOrdered [] h = tt
check_order-IsOrdered (e ∷ []) h = tt
check_order-IsOrdered (e ∷ f ∷ es) h =
    let (a, rest) = check-ok (refuse (is_end e.op) Error.end_not_last) _ h in
    let (b, more) = check-ok (refuse (ltb f.t e.t) Error.time_backwards) _ rest in
    (refuse-ok _ _ a, ground (arith, refuse-ok _ _ b), check_order-IsOrdered (f ∷ es) more)

check_order_of_IsOrdered : (es : List Event) → IsOrdered es → check_order es ≡ ok tt
unfolding check_order
check_order_of_IsOrdered [] h = refl
check_order_of_IsOrdered (e ∷ []) h = refl
check_order_of_IsOrdered (e ∷ f ∷ es) h = ground (arith, check_order_of_IsOrdered (f ∷ es) h.2)

-- The structure check passes exactly where times never decrease, nothing follows an end event, and
-- at each time the events of that time are legal together.
pub check_timing_iff :
    (es : List Event)
    → (check_timing es ≡ ok tt) ↔ (IsOrdered es × ((t : ℕ) → IsLegalGroup (at t es)))
unfolding check_timing
check_timing_iff es = (
  λ h.
      let (order, groups) = check-ok (check_order es) (check_groups (group_from [] es)) h in
      (
        check_order-IsOrdered es order,
        λ t.
            check_group-IsLegalGroup (at t es)
              (rw (← get-group_from t [] es) (check_groups-get (group_from [] es) groups t)),
      ),
  λ h. rw (
    check_order_of_IsOrdered es h.0,
    check_groups_of_get (group_from [] es) (group_from-IsKeyed [] es tt)
        (λ t. rw (get-group_from t [] es) (check_group_of_IsLegalGroup (at t es) (h.1 t))),
  ),
)
