-- ===== src/Xvec/Timing/Groups.antt =====
-- The groups that `_check_structure` makes are the events at one time, in file order.
use xilinx_unittests.Prelude.{
  ℕ, ◌==◌, if◌then◌else◌, ◌≡◌, ◌≢◌, inl, inr, refl, sym, subst, ◌∙◌, arith, ==_iff, Bool-cases,
  List, [], ◌∷◌, ◌++◌, All, ok, check-ok,
}
use mathlib.Core.List.{append_assoc, append-nil}
use xilinx_unittests.Xvec.{Event}
use xilinx_unittests.Xvec.Timing.{Groups, add_to_group, group_from, check_group, check_groups}

-- The events at one time, in file order.
abbrev pub at : ℕ → List Event → List Event
at t [] = []
at t (e ∷ es) = let rest = at t es in if e.t == t then e ∷ rest else rest

abbrev pub get : ℕ → Groups → List Event
get t [] = []
get t ((s, g) ∷ gs) = if s == t then g else get t gs

get-add_to_group :
    (t : ℕ) (e : Event) (gs : Groups) → get t (add_to_group e gs) ≡ get t gs ++ at t (e ∷ [])
unfolding add_to_group
get-add_to_group t e [] = ground arith
get-add_to_group t e ((s, g) ∷ gs) =
    ground (arith, get-add_to_group t e gs, append-nil (get t gs), append-nil g)

pub get-group_from :
    (t : ℕ) (gs : Groups) (es : List Event) → get t (group_from gs es) ≡ get t gs ++ at t es
unfolding group_from
get-group_from t gs [] = sym (append-nil (get t gs))
get-group_from t gs (e ∷ es) =
    get-group_from t (add_to_group e gs) es
    ∙ rw (get-add_to_group t e gs) (elim (Bool-cases (e.t == t)) [
      | inl q ↦ rw q (append_assoc (get t gs) (e ∷ []) (at t es))
      | inr q ↦ rw q (rw append-nil)
    ])

-- No time has two groups.
abbrev pub IsFresh : ℕ → Groups → Type 0
IsFresh t = All (λ p. p.0 ≢ t)

abbrev pub IsKeyed : Groups → Type 0
IsKeyed [] = Unit
IsKeyed ((t, g) ∷ gs) = IsFresh t gs × IsKeyed gs

add_to_group-IsFresh :
    (t : ℕ) (e : Event) (gs : Groups) → e.t ≢ t → IsFresh t gs → IsFresh t (add_to_group e gs)
unfolding add_to_group
add_to_group-IsFresh t e [] n h = (n, tt)
add_to_group-IsFresh t e ((s, g) ∷ gs) n h = elim (Bool-cases (s == e.t)) [
  | inl q ↦ rw q h
  | inr q ↦ rw q (h.0, add_to_group-IsFresh t e gs n h.1)
]

add_to_group-IsKeyed : (e : Event) (gs : Groups) → IsKeyed gs → IsKeyed (add_to_group e gs)
unfolding add_to_group
add_to_group-IsKeyed e [] h = (tt, tt)
add_to_group-IsKeyed e ((s, g) ∷ gs) h = elim (Bool-cases (s == e.t)) [
  | inl q ↦ rw q h
  | inr q ↦ rw q (add_to_group-IsFresh s e gs (ground arith) h.0, add_to_group-IsKeyed e gs h.1)
]

pub group_from-IsKeyed : (gs : Groups) (es : List Event) → IsKeyed gs → IsKeyed (group_from gs es)
unfolding group_from
group_from-IsKeyed gs [] h = h
group_from-IsKeyed gs (e ∷ es) h =
    group_from-IsKeyed (add_to_group e gs) es (add_to_group-IsKeyed e gs h)

get_of_IsFresh : (t : ℕ) (gs : Groups) → IsFresh t gs → get t gs ≡ []
get_of_IsFresh t [] h = refl
get_of_IsFresh t ((s, g) ∷ gs) h = ground (arith, get_of_IsFresh t gs h.1)

pub check_groups-get :
    (gs : Groups) → check_groups gs ≡ ok tt → (t : ℕ) → check_group (get t gs) ≡ ok tt
unfolding check_groups
check_groups-get [] h t = unfold check_group in refl
check_groups-get ((s, g) ∷ gs) h t =
    let (here, rest) = check-ok (check_group g) (check_groups gs) h in
    ground (arith, check_groups-get gs rest t)

pub check_groups_of_get :
    (gs : Groups)
    → IsKeyed gs
    → ((t : ℕ) → check_group (get t gs) ≡ ok tt)
    → check_groups gs ≡ ok tt
unfolding check_groups
check_groups_of_get [] k h = refl
check_groups_of_get ((s, g) ∷ gs) k h = rw (here, check_groups_of_get gs k.1 rest)
  where
    here : check_group g ≡ ok tt
    here = ground (arith, h s)

    rest : (t : ℕ) → check_group (get t gs) ≡ ok tt
    rest t = elim (Bool-cases (s == t)) [
      | inl q ↦
          let none_left : get t gs ≡ [] =
            get_of_IsFresh t gs (subst (λ r. IsFresh r gs) ((==_iff s t).0 q) k.0) in
          rw none_left (unfold check_group in refl)
      | inr q ↦ ground (arith, h t)
    ]
