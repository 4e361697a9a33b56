-- ===== src/Crosscheck/Classify/Members.antt =====
-- What the loops of `classify` run over: the flows, the groups of a flow and the pairs of a group.
use xilinx_unittests.Prelude.{
  String, Bool, true, ◌&&◌, str_eq, eq_iff, ◌≡◌, ◌≢◌, refl, sym, ap, subst, ◌⊎◌, inl, inr,
  Bool-cases, List, [], ◌∷◌, ◌++◌, map,
}
use mathlib.Core.List.{Memᴰ}
use mathlib.Core.List.Memᴰ as MemD
use xilinx_unittests.Crosscheck.{View}
use xilinx_unittests.Crosscheck.Findings.{has_string}
use xilinx_unittests.Crosscheck.Points.{insert_with, sort_with, without_repeats, str_lt}
use xilinx_unittests.Crosscheck.Sims.{combinations, is_sim, sim_flows, group_of}

module _ {A : Type 0} (lt : A → A → Bool) where
  mem-insert_with : (a x : A) (ys : List A) → Memᴰ a (x ∷ ys) → Memᴰ a (insert_with lt x ys)
  unfolding insert_with
  mem-insert_with a x [] h = h
  mem-insert_with a x (y ∷ ys) h = elim (Bool-cases (lt y x)) [
    | inr q ↦ rw q h
    | inl q ↦ rw q (elim (MemD.cases_cons h) [
      | inl e ↦ MemD.tail (mem-insert_with a x ys (MemD.head e))
      | inr m ↦ elim (MemD.cases_cons m) [
        | inl e ↦ MemD.head e
        | inr t ↦ MemD.tail (mem-insert_with a x ys (MemD.tail t))
      ]
    ])
  ]

  pub mem-sort_with : (a : A) (xs : List A) → Memᴰ a xs → Memᴰ a (sort_with lt xs)
  unfolding sort_with
  mem-sort_with a [] h = h
  mem-sort_with a (x ∷ xs) h =
      mem-insert_with a x (sort_with lt xs) (elim (MemD.cases_cons h) [
        | inl e ↦ MemD.head e
        | inr t ↦ MemD.tail (mem-sort_with a xs t)
      ])

module _ {A : Type 0} where
  mem-map : {B : Type 0} (f : A → B) (a : A) (xs : List A) → Memᴰ a xs → Memᴰ (f a) (map f xs)
  mem-map f a [] h = absurd (MemD.not-nil h)
  mem-map f a (x ∷ xs) h = elim (MemD.cases_cons h) [
    | inl e ↦ MemD.head (ap f e)
    | inr t ↦ MemD.tail (mem-map f a xs t)
  ]

  mem-right : (a : A) (xs ys : List A) → Memᴰ a ys → Memᴰ a (xs ++ ys)
  mem-right a [] ys h = h
  mem-right a (x ∷ xs) ys h = MemD.tail (mem-right a xs ys h)

  mem-left : (a : A) (xs ys : List A) → Memᴰ a xs → Memᴰ a (xs ++ ys)
  mem-left a [] ys h = absurd (MemD.not-nil h)
  mem-left a (x ∷ xs) ys h = elim (MemD.cases_cons h) [
    | inl e ↦ MemD.head e
    | inr t ↦ MemD.tail (mem-left a xs ys t)
  ]

abbrev pub IsPair : View → View → List (View × View) → Type 0
IsPair v w ps = Memᴰ {A = View × View} (v, w) ps

-- Two views of a list are one of its pairs, in one of their orders.
pub mem-combinations :
    (v w : View) (vs : List View)
    → v ≢ w
    → Memᴰ v vs
    → Memᴰ w vs
    → IsPair v w (combinations vs) ⊎ IsPair w v (combinations vs)
unfolding combinations
mem-combinations v w [] ne h k = absurd (MemD.not-nil h)
mem-combinations v w (u ∷ vs) ne h k = elim (MemD.cases_cons h) [
  | inl e ↦ elim (MemD.cases_cons k) [
    | inl d ↦ absurd (ne (cc))
    | inr t ↦ inl (
        mem-left (v, w) _ _
          (subst (λ x. IsPair v w (map (λ y. (x, y)) vs)) e (mem-map (λ y. (v, y)) w vs t)))
  ]
  | inr s ↦ elim (MemD.cases_cons k) [
    | inl d ↦ inr (
        mem-left (w, v) _ _
          (subst (λ x. IsPair w v (map (λ y. (x, y)) vs)) d (mem-map (λ y. (w, y)) v vs s)))
    | inr t ↦ elim (mem-combinations v w vs ne s t) [
      | inl m ↦ inl (mem-right (v, w) _ _ m)
      | inr m ↦ inr (mem-right (w, v) _ _ m)
    ]
  ]
]

pub mem-group_of :
    (v : View) (vs : List View) → Memᴰ v vs → is_sim v ≡ true → Memᴰ v (group_of v.flow vs)
mem-group_of v [] h s = absurd (MemD.not-nil h)
mem-group_of v (u ∷ vs) h s = elim (MemD.cases_cons h) [
  | inl e ↦ rw (← e, s, (eq_iff v.flow v.flow).1 refl) (MemD.head refl)
  | inr t ↦ elim (Bool-cases (is_sim u && str_eq u.flow v.flow)) [
    | inl q ↦ rw q (MemD.tail (mem-group_of v vs t s))
    | inr q ↦ rw q (mem-group_of v vs t s)
  ]
]

mem-sim_flows :
    (v : View) (vs : List View) → Memᴰ v vs → is_sim v ≡ true → Memᴰ v.flow (sim_flows vs)
mem-sim_flows v [] h s = absurd (MemD.not-nil h)
mem-sim_flows v (u ∷ vs) h s = elim (MemD.cases_cons h) [
  | inl e ↦ rw (← e, s) (MemD.head refl)
  | inr t ↦ elim (Bool-cases (is_sim u)) [
    | inl q ↦ rw q (MemD.tail (mem-sim_flows v vs t s))
    | inr q ↦ rw q (mem-sim_flows v vs t s)
  ]
]

mem-has_string : (r : String) (rs : List String) → has_string rs r ≡ true → Memᴰ r rs
mem-has_string r [] h = cc h
mem-has_string r (s ∷ rs) h = elim (Bool-cases (str_eq r s)) [
  | inl q ↦ MemD.head ((eq_iff r s).0 q)
  | inr q ↦ MemD.tail (mem-has_string r rs (rw q at h))
]

mem-without_repeats : (r : String) (rs : List String) → Memᴰ r rs → Memᴰ r (without_repeats rs)
mem-without_repeats r [] h = h
mem-without_repeats r (s ∷ rs) h = elim (Bool-cases (has_string rs s)) [
  | inl q ↦ rw q (
      mem-without_repeats r rs (elim (MemD.cases_cons h) [
        | inl e ↦ subst (λ x. Memᴰ x rs) (sym e) (mem-has_string s rs q)
        | inr t ↦ t
      ]))
  | inr q ↦ rw q (elim (MemD.cases_cons h) [
    | inl e ↦ MemD.head e
    | inr t ↦ MemD.tail (mem-without_repeats r rs t)
  ])
]

-- The flow of a simulator's view is gone through.
pub mem-flows :
    (v : View) (vs : List View)
    → Memᴰ v vs
    → is_sim v ≡ true
    → Memᴰ v.flow (sort_with str_lt (without_repeats (sim_flows vs)))
mem-flows v vs h s =
    mem-sort_with str_lt v.flow (without_repeats (sim_flows vs))
      (mem-without_repeats v.flow (sim_flows vs) (mem-sim_flows v vs h s))
