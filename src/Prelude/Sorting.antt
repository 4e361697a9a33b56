-- ===== src/Prelude/Sorting.antt =====
-- A stable sort by a key, Python's `sorted(xs, key=...)` and `xs.sort(key=...)`: an entry goes
-- before the entries after it whose key is not smaller.
use Prim.Native.Nat.{ℕ, ◌≤◌}
use mathlib.Core.Path.{◌≡◌, refl}
use mathlib.Core.Logic.{◌↔◌, inl, inr}
use mathlib.Core.List.{List, [], ◌∷◌, Memᴰ}
use mathlib.Core.List.Memᴰ as MemD
use native.Mathlib.Omega.{arith}
use xilinx_unittests.Prelude.Tests.{leb, if◌then◌else◌, leb→le, le→leb, Bool-cases}
use xilinx_unittests.Prelude.Lists.{All}

module _ {ℓ} {A : Type ℓ} (key : A → ℕ) where
  unfoldable pub insert_by : A → List A → List A
  insert_by x [] = x ∷ []
  insert_by x (y ∷ ys) = if leb (key x) (key y) then x ∷ y ∷ ys else y ∷ insert_by x ys

  unfoldable pub sort_by : List A → List A
  unfolding insert_by
  sort_by [] = []
  sort_by (x ∷ xs) = insert_by x (sort_by xs)

  -- Each key is at most the keys after it.
  abbrev pub IsSorted : List A → Type 0
  IsSorted [] = Unit
  IsSorted (x ∷ xs) = All (λ y. key x ≤ key y) xs × IsSorted xs

  All-insert_by :
      (n : ℕ) (x : A) (ys : List A)
      → n ≤ key x
      → All (λ y. n ≤ key y) ys
      → All (λ y. n ≤ key y) (insert_by x ys)
  unfolding insert_by
  All-insert_by n x [] h a = (h, tt)
  All-insert_by n x (y ∷ ys) h a = elim (Bool-cases (leb (key x) (key y))) [
    | inl q ↦ rw q (h, a)
    | inr q ↦ rw q (a.0, All-insert_by n x ys h a.1)
  ]

  All-weaken : (m n : ℕ) (ys : List A) → m ≤ n → All (λ y. n ≤ key y) ys → All (λ y. m ≤ key y) ys
  All-weaken m n [] h a = tt
  All-weaken m n (y ∷ ys) h a = (omega arith, All-weaken m n ys h a.1)

  insert_by-IsSorted : (x : A) (ys : List A) → IsSorted ys → IsSorted (insert_by x ys)
  unfolding insert_by
  insert_by-IsSorted x [] h = (tt, tt)
  insert_by-IsSorted x (y ∷ ys) h = elim (Bool-cases (leb (key x) (key y))) [
    | inl q ↦
        let le = leb→le (key x) (key y) q in rw q ((le, All-weaken (key x) (key y) ys le h.0), h)
    | inr q ↦ rw q (All-insert_by (key y) x ys (ground arith) h.0, insert_by-IsSorted x ys h.1)
  ]

  pub sort_by-IsSorted : (xs : List A) → IsSorted (sort_by xs)
  unfolding sort_by
  sort_by-IsSorted [] = tt
  sort_by-IsSorted (x ∷ xs) = insert_by-IsSorted x (sort_by xs) (sort_by-IsSorted xs)

  mem-insert_by : (a x : A) (ys : List A) → Memᴰ a (insert_by x ys) ↔ Memᴰ a (x ∷ ys)
  unfolding insert_by
  mem-insert_by a x [] = (λ h. h, λ h. h)
  mem-insert_by a x (y ∷ ys) = elim (Bool-cases (leb (key x) (key y))) [
    | inl q ↦ rw q (λ h. h, λ h. h)
    | inr q ↦ rw q (to (mem-insert_by a x ys).0, from (mem-insert_by a x ys).1)
  ]
    where
      to :
          (Memᴰ a (insert_by x ys) → Memᴰ a (x ∷ ys))
          → Memᴰ a (y ∷ insert_by x ys)
          → Memᴰ a (x ∷ y ∷ ys)
      to ih h = elim (MemD.cases_cons h) [
        | inl e ↦ MemD.tail (MemD.head e)
        | inr m ↦ elim (MemD.cases_cons (ih m)) [
          | inl e ↦ MemD.head e
          | inr r ↦ MemD.tail (MemD.tail r)
        ]
      ]

      from :
          (Memᴰ a (x ∷ ys) → Memᴰ a (insert_by x ys))
          → Memᴰ a (x ∷ y ∷ ys)
          → Memᴰ a (y ∷ insert_by x ys)
      from ih h = elim (MemD.cases_cons h) [
        | inl e ↦ MemD.tail (ih (MemD.head e))
        | inr m ↦ elim (MemD.cases_cons m) [
          | inl e ↦ MemD.head e
          | inr r ↦ MemD.tail (ih (MemD.tail r))
        ]
      ]

  pub mem-sort_by : (a : A) (xs : List A) → Memᴰ a (sort_by xs) ↔ Memᴰ a xs
  unfolding sort_by
  mem-sort_by a [] = (λ h. h, λ h. h)
  mem-sort_by a (x ∷ xs) = (
    λ h. elim (MemD.cases_cons ((mem-insert_by a x (sort_by xs)).0 h)) [
      | inl e ↦ MemD.head e
      | inr m ↦ MemD.tail ((mem-sort_by a xs).0 m)
    ],
    λ h. (mem-insert_by a x (sort_by xs)).1 (elim (MemD.cases_cons h) [
      | inl e ↦ MemD.head e
      | inr m ↦ MemD.tail ((mem-sort_by a xs).1 m)
    ]),
  )

  insert_by_least : (x : A) (ys : List A) → All (λ y. key x ≤ key y) ys → insert_by x ys ≡ x ∷ ys
  unfolding insert_by
  insert_by_least x [] h = refl
  insert_by_least x (y ∷ ys) h = rw (le→leb (key x) (key y) h.0)

  -- A sorted list stays as it is.
  pub sort_by_of_IsSorted : (xs : List A) → IsSorted xs → sort_by xs ≡ xs
  unfolding sort_by
  sort_by_of_IsSorted [] h = refl
  sort_by_of_IsSorted (x ∷ xs) h = rw (sort_by_of_IsSorted xs h.1) (insert_by_least x xs h.0)
