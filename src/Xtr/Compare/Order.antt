-- ===== src/Xtr/Compare/Order.antt =====
-- When `_order_mismatch` finds nothing: for two lists of the same labels, none twice.
use xilinx_unittests.Prelude.{
  ℕ, suc, true, false, ◌≡◌, refl, sym, subst, ◌↔◌, inl, inr, Bool-cases, List, [], ◌∷◌, All,
}
use xilinx_unittests.Names.{Chars, chars_eq, chars_eq_refl, chars_eq→≡, member}
use xilinx_unittests.Xtr.Compare.{common, first_difference, order_mismatch}

-- No entry is there twice, as of the keys of a dictionary.
abbrev pub AreDistinct : List Chars → Type 0
AreDistinct [] = Unit
AreDistinct (l ∷ ls) = (member l ls ≡ false) × AreDistinct ls

abbrev pub AllIn : List Chars → List Chars → Type 0
AllIn known ls = All (λ l. member l known ≡ true) ls

pub common-AllIn : (known ls : List Chars) → AllIn known ls → common known ls ≡ ls
unfolding common
common-AllIn known [] h = refl
common-AllIn known (l ∷ ls) h = rw (h.0, common-AllIn known ls h.1) refl

member-tail :
    (l m : Chars) (ls : List Chars)
    → chars_eq l m ≡ false
    → member l (m ∷ ls) ≡ true
    → member l ls ≡ true
member-tail l m ls ne h = rw ne at h

pub apart : (m : Chars) (ls : List Chars) → member m ls ≡ false → All (λ l. chars_eq l m ≡ false) ls
apart m [] h = tt
apart m (l ∷ ls) h = elim (Bool-cases (chars_eq l m)) [
  | inl q ↦
      let same = subst (λ k. chars_eq m k ≡ true) (sym (chars_eq→≡ l m q)) (chars_eq_refl m) in
      absurd (cc (rw same at h))
  | inr q ↦ elim (Bool-cases (chars_eq m l)) [
    | inl k ↦ absurd (cc (rw k at h))
    | inr k ↦ (q, apart m ls (rw k at h))
  ]
]

AllIn-tail :
    (m : Chars) (known ls : List Chars)
    → All (λ l. chars_eq l m ≡ false) ls
    → AllIn (m ∷ known) ls
    → AllIn known ls
AllIn-tail m known [] d h = tt
AllIn-tail m known (l ∷ ls) d h = (member-tail l m known d.0 h.0, AllIn-tail m known ls d.1 h.1)

first_difference-same :
    (c : List Chars) (i : ℕ) (xs ys : List Chars)
    → AreDistinct xs
    → AreDistinct ys
    → AllIn ys xs
    → AllIn xs ys
    → first_difference c i xs ys ≡ []
    → xs ≡ ys
unfolding first_difference
first_difference-same c i [] [] dx dy hx hy h = refl
first_difference-same c i [] (y ∷ ys) dx dy hx hy h = cc hy.0
first_difference-same c i (x ∷ xs) [] dx dy hx hy h = cc hx.0
first_difference-same c i (x ∷ xs) (y ∷ ys) dx dy hx hy h = elim (Bool-cases (chars_eq y x)) [
  | inl q ↦
      let e = chars_eq→≡ y x q in
      let ax = subst (λ k. All (λ l. chars_eq l k ≡ false) xs) (sym e) (apart x xs dx.0) in
      let ay = subst (λ k. All (λ l. chars_eq l k ≡ false) ys) e (apart y ys dy.0) in
      let rest =
        first_difference-same c (suc i) xs ys dx.1 dy.1 (AllIn-tail y ys xs ax hx.1)
          (AllIn-tail x xs ys ay hy.1) (rw q at h) in
      rw (e, rest) refl
  | inr q ↦ absurd (cc (rw q at h))
]

first_difference_refl : (c : List Chars) (i : ℕ) (xs : List Chars) → first_difference c i xs xs ≡ []
unfolding first_difference
first_difference_refl c i [] = refl
first_difference_refl c i (x ∷ xs) = rw (chars_eq_refl x, first_difference_refl c (suc i) xs) refl

AllIn-cons : (x : Chars) (known ls : List Chars) → AllIn known ls → AllIn (x ∷ known) ls
AllIn-cons x known [] h = tt
AllIn-cons x known (l ∷ ls) h = elim (Bool-cases (chars_eq l x)) [
  | inl q ↦ (rw q refl, AllIn-cons x known ls h.1)
  | inr q ↦ (rw q h.0, AllIn-cons x known ls h.1)
]

pub AllIn-refl : (xs : List Chars) → AllIn xs xs
AllIn-refl [] = tt
AllIn-refl (x ∷ xs) = (rw (chars_eq_refl x) refl, AllIn-cons x xs xs (AllIn-refl xs))

-- Of two lists of the same names, none twice, the order is found to agree exactly where the lists are
-- one.
pub order_mismatch-none :
    (xs ys : List Chars)
    → AreDistinct xs
    → AreDistinct ys
    → AllIn ys xs
    → AllIn xs ys
    → (order_mismatch xs ys ≡ []) ↔ (xs ≡ ys)
unfolding order_mismatch
order_mismatch-none xs ys dx dy hx hy =
    rw (common-AllIn ys xs hx, common-AllIn xs ys hy)
      (
        λ h. first_difference-same ys 0 xs ys dx dy hx hy h,
        λ e. subst (λ zs. first_difference zs 0 xs zs ≡ []) e (first_difference_refl xs 0 xs),
      )
