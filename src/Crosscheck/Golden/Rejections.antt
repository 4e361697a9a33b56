-- ===== src/Crosscheck/Golden/Rejections.antt =====
-- The tally of `_golden_vs_sims` when nothing is in it: no simulator accepts what the golden model rejects.
use xilinx_unittests.Prelude.{
  String, Bool, true, false, ◌≡◌, refl, sym, ap, subst, inl, inr, Bool-cases, List, [], ◌∷◌,
  append-none,
}
use mathlib.Core.List.{Memᴰ}
use mathlib.Core.List.Memᴰ as MemD
use xilinx_unittests.Names.{Chars, chars_eq, chars_eq→≡, member}
use xilinx_unittests.Xtr.{lookup}
use xilinx_unittests.Xtr.Diff.{chars_lt}
use xilinx_unittests.Crosscheck.{View, outcomes, both, minus, sorted_cfgs, insert_cfg}
use xilinx_unittests.Crosscheck.Points.{insert_with, sort_with, str_lt}
use xilinx_unittests.Crosscheck.Golden.{
  Tally, then_tally, accepted_at, accepting, is_accepted, rejection_tally,
}

-- What `sorted` gives is empty only where it was given nothing.
module _ {A : Type 0} (lt : A → A → Bool) where
  insert_with-filled : (x : A) (ys : List A) → insert_with lt x ys ≡ [] → ⊥
  unfolding insert_with
  insert_with-filled x [] h = cc
  insert_with-filled x (y ∷ ys) h = elim (Bool-cases (lt y x)) [
    | inl q ↦ cc (rw q at h)
    | inr q ↦ cc (rw q at h)
  ]

  pub sort_with-none : (xs : List A) → sort_with lt xs ≡ [] → xs ≡ []
  unfolding sort_with
  sort_with-none [] h = refl
  sort_with-none (x ∷ xs) h = absurd (insert_with-filled x (sort_with lt xs) h)

-- Nothing was appended, so that no finding and no issue follows.
abbrev pub IsSilent : Tally → Type 0
IsSilent t = (t.sim_points ≡ []) × (t.issues ≡ []) × (t.doc ≡ []) × (t.gap ≡ [])

pub then_tally-IsSilent : (t u : Tally) → IsSilent (then_tally t u) → IsSilent t × IsSilent u
then_tally-IsSilent t u h =
    let (p0, p1) = (append-none t.sim_points u.sim_points).0 h.0 in
    let (i0, i1) = (append-none t.issues u.issues).0 h.1 in
    let (d0, d1) = (append-none t.doc u.doc).0 h.2 in
    let (g0, g1) = (append-none t.gap u.gap).0 h.3 in ((p0, i0, d0, g0), (p1, i1, d1, g1))

pub rejection_tally-none :
    (group : List View) (c : Chars) (cs : List Chars)
    → IsSilent (rejection_tally group cs)
    → member c cs ≡ true
    → accepting c group ≡ []
unfolding rejection_tally
rejection_tally-none group c [] h m = cc m
rejection_tally-none group c (d ∷ cs) h m =
    let (here, later) =
      then_tally-IsSilent (accepted_at d (sort_with str_lt (accepting d group)))
        (rejection_tally group cs) h in
    elim (Bool-cases (chars_eq c d)) [
      | inl q ↦
          subst (λ e. accepting e group ≡ []) (sym (chars_eq→≡ c d q))
            (sort_with-none str_lt (accepting d group) (accepted_at-none d _ here))
      | inr q ↦ rejection_tally-none group c cs later (rw q at m)
    ]
  where
    accepted_at-none : (d : Chars) (rs : List String) → IsSilent (accepted_at d rs) → rs ≡ []
    accepted_at-none d [] h = refl
    accepted_at-none d (r ∷ rs) h = cc h.3

pub accepting-none :
    (c : Chars) (v : View) (vs : List View)
    → accepting c vs ≡ []
    → Memᴰ v vs
    → is_accepted (lookup c (outcomes v)) ≡ false
accepting-none c v [] h m = absurd (MemD.not-nil m)
accepting-none c v (w ∷ vs) h m = elim (Bool-cases (is_accepted (lookup c (outcomes w)))) [
  | inl q ↦ cc (rw q at h)
  | inr q ↦ elim (MemD.cases_cons m) [
    | inl e ↦ rw e q
    | inr t ↦ accepting-none c v vs (rw q at h) t
  ]
]

-- The membership tests of the sets that the loop over the rejections is on.
pub member-both :
    (c : Chars) (cs ds : List Chars)
    → member c cs ≡ true
    → member c ds ≡ true
    → member c (both cs ds) ≡ true
member-both c [] ds h k = cc h
member-both c (e ∷ cs) ds h k = elim (Bool-cases (chars_eq c e)) [
  | inl q ↦ let there = subst (λ x. member x ds ≡ true) (chars_eq→≡ c e q) k in rw (there, q) refl
  | inr q ↦ elim (Bool-cases (member e ds)) [
    | inl i ↦ rw (i, q) (member-both c cs ds (rw q at h) k)
    | inr i ↦ rw i (member-both c cs ds (rw q at h) k)
  ]
]

pub minus-none : (cs : List Chars) → minus cs [] ≡ cs
minus-none [] = refl
minus-none (c ∷ cs) = ap (◌∷◌ c) (minus-none cs)

member-insert_cfg :
    (c d : Chars) (cs : List Chars) → member c (d ∷ cs) ≡ true → member c (insert_cfg d cs) ≡ true
member-insert_cfg c d [] h = h
member-insert_cfg c d (e ∷ cs) h = elim (Bool-cases (chars_lt e d)) [
  | inr i ↦ rw i h
  | inl i ↦ elim (Bool-cases (chars_eq c e)) [
    | inl q ↦ rw (i, q) refl
    | inr q ↦
        rw (i, q)
          (member-insert_cfg c d cs (elim (Bool-cases (chars_eq c d)) [
            | inl k ↦ rw k refl
            | inr k ↦ rw k (rw (k, q) at h)
          ]))
  ]
]

pub member-sorted_cfgs :
    (c : Chars) (cs : List Chars) → member c cs ≡ true → member c (sorted_cfgs cs) ≡ true
member-sorted_cfgs c [] h = h
member-sorted_cfgs c (d ∷ cs) h =
    member-insert_cfg c d (sorted_cfgs cs) (elim (Bool-cases (chars_eq c d)) [
      | inl k ↦ rw k refl
      | inr k ↦ rw k (member-sorted_cfgs c cs (rw k at h))
    ])
