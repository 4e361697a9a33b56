-- ===== src/Validate/Nearest.antt =====
-- `_nearest` of tools/xut/validate.py, which looks at two entries of a sorted list, against all of
-- them.
use mathlib.Core.List.{Memᴰ}
use mathlib.Core.List.Memᴰ as MemD
use xilinx_unittests.Prelude.{
  ℕ, ◌≤◌, ltb, true, ◌≡◌, refl, subst, sym, inl, inr, arith, Bool-cases, Option, none, some, List,
  [], ◌∷◌, All, IsSorted,
}
use xilinx_unittests.Validate.Races.{distance, bisect_left, least, pair_before, nearest}

-- The given distance and entry are those of a nearest entry; none where there is no entry.
abbrev pub IsNearest : ℕ → List ℕ → Option (ℕ × ℕ) → Type 0
IsNearest t ts none = ts ≡ []
IsNearest t ts (some p) = Memᴰ p.1 ts × (p.0 ≡ distance p.1 t) × All (λ y. p.0 ≤ distance y t) ts

All-far :
    (t x : ℕ) (ts : List ℕ)
    → t ≤ x
    → All (λ y. x ≤ y) ts
    → All (λ y. distance x t ≤ distance y t) ts
All-far t x [] h a = tt
All-far t x (y ∷ ts) h a = (omega arith, All-far t x ts h a.1)

All-trans :
    (m n t : ℕ) (ts : List ℕ)
    → m ≤ n
    → All (λ y. n ≤ distance y t) ts
    → All (λ y. m ≤ distance y t) ts
All-trans m n t [] h a = tt
All-trans m n t (y ∷ ts) h a = (omega arith, All-trans m n t ts h a.1)

nearest-later :
    (x y : ℕ) (ts : List ℕ) (t : ℕ)
    → ltb x t ≡ true
    → ltb y t ≡ true
    → nearest (x ∷ y ∷ ts) t ≡ nearest (y ∷ ts) t
unfolding nearest bisect_left
nearest-later x y ts t h k = rw (h, k) refl

add-first :
    (t x y : ℕ) (ts : List ℕ) (o : Option (ℕ × ℕ))
    → x ≤ y
    → y ≤ t
    → IsNearest t (y ∷ ts) o
    → IsNearest t (x ∷ y ∷ ts) o
add-first t x y ts none h k n = cc n
add-first t x y ts (some p) h k n = let near = n.2.0 in (MemD.tail n.0, n.1, (omega arith, n.2))

pick :
    (t x y : ℕ) (ts : List ℕ)
    → x ≤ y
    → t ≤ y
    → All (λ z. y ≤ z) ts
    → IsNearest t (x ∷ y ∷ ts) (least ((distance x t, x) ∷ (distance y t, y) ∷ []))
pick t x y ts h k a =
    let two : List (ℕ × ℕ) = (distance x t, x) ∷ (distance y t, y) ∷ [] in
    let far = All-far t y ts k a in
    elim (Bool-cases (pair_before (distance y t, y) (distance x t, x))) [
      | inl q ↦
          let le : distance y t ≤ distance x t = ground arith in
          let found : ◌≡◌ {A = Option (ℕ × ℕ)} (least two) (some (distance y t, y)) = rw q refl in
          subst (IsNearest t (x ∷ y ∷ ts)) (sym found)
            (MemD.tail (MemD.head refl), refl, (le, (omega arith, far)))
      | inr q ↦
          let le : distance x t ≤ distance y t = ground arith in
          let found : ◌≡◌ {A = Option (ℕ × ℕ)} (least two) (some (distance x t, x)) = rw q refl in
          subst (IsNearest t (x ∷ y ∷ ts)) (sym found) (
            MemD.head refl,
            refl,
            (omega arith, (le, All-trans (distance x t) (distance y t) t ts le far)),
          )
    ]

-- On an ascending list, the two entries that are looked at hold a nearest one: where there is an entry
-- the result is an entry with its distance, which is at most that of every other entry.
pub nearest-IsNearest : (ts : List ℕ) (t : ℕ) → IsSorted (λ x. x) ts → IsNearest t ts (nearest ts t)
unfolding nearest bisect_left
nearest-IsNearest [] t s = refl
nearest-IsNearest (x ∷ []) t s = elim (Bool-cases (ltb x t)) [
  | inl q ↦ rw q (MemD.head refl, refl, (omega arith, tt))
  | inr q ↦ rw q (MemD.head refl, refl, (omega arith, tt))
]
nearest-IsNearest (x ∷ y ∷ ts) t s = elim (Bool-cases (ltb x t)) [
  | inl q ↦ elim (Bool-cases (ltb y t)) [
    | inl r ↦
        let rest = nearest-IsNearest (y ∷ ts) t s.1 in
        rw (nearest-later x y ts t q r)
          (add-first t x y ts (nearest (y ∷ ts) t) s.0.0 (ground arith) rest)
    | inr r ↦ rw (q, r) (pick t x y ts s.0.0 (ground arith) s.1.0)
  ]
  | inr q ↦ rw q (MemD.head refl, refl, (omega arith, All-far t x (y ∷ ts) (ground arith) s.0))
]
