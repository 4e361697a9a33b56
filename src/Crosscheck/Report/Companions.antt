-- ===== src/Crosscheck/Report/Companions.antt =====
-- `_companion_explained` of tools/xut/crosscheck.py, as what it asks of the results and the findings.
use mathlib.Core.List.{Memᴰ}
use mathlib.Core.List.Memᴰ as MemD
use xilinx_unittests.Prelude.{
  Bool, true, not, ◌&&◌, str_eq, eq_iff, arith, ◌≡◌, ◌↔◌, refl, sym, ap, subst, ◌∙◌, inl, inr,
  Bool-cases, Option, none, some, List, [], ◌∷◌, any, all,
}
use xilinx_unittests.Names.{Chars, chars_eq, chars_eq_refl, chars_eq→≡, member}
use xilinx_unittests.Crosscheck.{Status, Config, View, is_filled}
use xilinx_unittests.Crosscheck.Findings.{
  Class, class_name, class_eq, Finding, is_fail, failed_of, view_at, is_within, shown_class,
  applies, explained_by, companion_explained,
}
use xilinx_unittests.Crosscheck.Report.Explained.{
  any_iff, class_eq_iff, is_fail→≡, Applies, Explained, applies_iff, is_explained_iff,
}

-- Some configuration failed, and each that did failed in the other result, too; a result without configurations
-- is not asked.
abbrev pub FailedWithin : Option (List Config) → Option (List Config) → Type 0
FailedWithin none other = Unit
FailedWithin (some cs) none = ⊥
FailedWithin (some cs) (some ds) =
    ((c : Config) × Memᴰ c cs × (c.status ≡ Status.fail))
    × ((c : Config)
        → Memᴰ c cs
        → c.status ≡ Status.fail
        → (d : Config) × Memᴰ d ds × (d.status ≡ Status.fail) × (d.cfg ≡ c.cfg))

failed_member :
    (x : Chars) (cs : List Config)
    → (member x (failed_of cs) ≡ true)
      ↔ ((c : Config) × Memᴰ c cs × (c.status ≡ Status.fail) × (c.cfg ≡ x))
failed_member x [] = (λ h. cc h, λ h. absurd (MemD.not-nil h.1))
failed_member x (c ∷ cs) =
    let later = failed_member x cs in
    let deeper = λ (h : member x (failed_of cs) ≡ true).
      let (d, m, f, e) = later.0 h in
      let r : (c' : Config) × Memᴰ c' (c ∷ cs) × (c'.status ≡ Status.fail) × (c'.cfg ≡ x) =
        (d, MemD.tail m, f, e) in
      r in
    elim (Bool-cases (is_fail c.status)) [
      | inr q ↦ rw q (
        deeper,
        λ h. elim (MemD.cases_cons h.1) [
          | inl e ↦ cc (ap (λ (k : Config). is_fail k.status) e, ap is_fail h.2, q)
          | inr t ↦ later.1 (h.0, t, h.2, h.3)
        ],
      )
      | inl q ↦ elim (Bool-cases (chars_eq x c.cfg)) [
        | inl k ↦
            rw (q, k)
              (
                λ h. (c, MemD.head refl, is_fail→≡ c.status q, sym (chars_eq→≡ x c.cfg k)),
                λ h. refl,
              )
        | inr k ↦
            rw (q, k)
              (
                deeper,
                λ h. elim (MemD.cases_cons h.1) [
                  | inl e ↦
                      let same = sym (ap (λ (c : Config). c.cfg) e) ∙ h.3 in
                      cc (subst (λ y. chars_eq y c.cfg ≡ true) same (chars_eq_refl c.cfg), k)
                  | inr t ↦ later.1 (h.0, t, h.2, h.3)
                ],
              )
      ]
    ]

within_iff :
    (cs ds : Option (List Config))
    → (is_within
          (elim cs [ none ↦ none | some xs ↦ some (failed_of xs) ])
          (elim ds [ none ↦ none | some xs ↦ some (failed_of xs) ])
        ≡ true)
      ↔ FailedWithin cs ds
within_iff none ds = (λ h. tt, λ h. refl)
within_iff (some cs) none = (λ h. cc h, λ h. absurd h)
within_iff (some cs) (some ds) = (
  λ h. (
    first (failed_of cs) (λ x m. (failed_member x cs).0 m) (ground arith),
    λ c m f.
        (failed_member c.cfg ds).0
          (each (failed_of cs) (ground arith) c.cfg ((failed_member c.cfg cs).1 (c, m, f, refl))),
  ),
  λ h.
      let filled =
        some_failed (failed_of cs) h.0.0.cfg
          ((failed_member h.0.0.cfg cs).1 (h.0.0, h.0.1, h.0.2, refl)) in
      let inside = all_in (failed_of cs) (λ x m.
        let (c, mem, f, e) = (failed_member x cs).0 m in
        let (d, n, g, k) = h.1 c mem f in (failed_member x ds).1 (d, n, g, k ∙ e)) in
      rw (filled, inside) refl,
)
  where
    first :
        (xs : List Chars)
        → ((x : Chars)
            → member x xs ≡ true
            → (c : Config) × Memᴰ c cs × (c.status ≡ Status.fail) × (c.cfg ≡ x))
        → is_filled xs ≡ true
        → (c : Config) × Memᴰ c cs × (c.status ≡ Status.fail)
    first [] k h = cc h
    first (x ∷ xs) k h = let (c, m, f, e) = k x (rw (chars_eq_refl x) refl) in (c, m, f)

    each :
        (xs : List Chars)
        → all (λ c. member c (failed_of ds)) xs ≡ true
        → (x : Chars) → member x xs ≡ true
        → member x (failed_of ds) ≡ true
    each [] h x m = cc m
    each (y ∷ xs) h x m = elim (Bool-cases (chars_eq x y)) [
      | inl q ↦ rw (chars_eq→≡ x y q) (ground arith)
      | inr q ↦ each xs (ground arith) x (rw q at m)
    ]

    some_failed : (xs : List Chars) (x : Chars) → member x xs ≡ true → is_filled xs ≡ true
    some_failed [] x m = cc m
    some_failed (y ∷ xs) x m = refl

    all_in :
        (xs : List Chars)
        → ((x : Chars) → member x xs ≡ true → member x (failed_of ds) ≡ true)
        → all (λ c. member c (failed_of ds)) xs ≡ true
    all_in [] k = refl
    all_in (x ∷ xs) k =
        let here = k x (rw (chars_eq_refl x) refl) in
        let later = all_in xs (λ y m. k y (more y x xs m)) in rw (here, later) refl
      where
        more : (y x : Chars) (xs : List Chars) → member y xs ≡ true → member y (x ∷ xs) ≡ true
        more y x xs m = ground arith

module _ {P : Type 0} where
  -- The result is of the rewritten Verilog, the run of iverilog that it accompanies failed and is explained,
  -- the result failed nothing that the other did not, and no finding on the rewriting applies.
  abbrev pub CompanionExplained : View → List (Finding P) → Option (List View) → Type 0
  CompanionExplained v fs views =
      (v.runner ≡ "iverilog-vz")
      × ((vs : List View) × (iv : View) × (views ≡ some vs)
          × (view_at v.flow "iverilog" vs ≡ some iv)
          × (iv.status ≡ Status.fail)
          × Explained iv fs
          × FailedWithin v.configs iv.configs
          × ((f : Finding P)
              → Memᴰ f fs
              → class_name (shown_class f) ≡ class_name Class.transform_bug
              → Applies f v
              → ⊥))

  abbrev separates : View → Finding P → Bool
  separates v f = class_eq (shown_class f) Class.transform_bug && applies f v

  separates_iff :
      (v : View) (f : Finding P)
      → (separates v f ≡ true)
        ↔ ((class_name (shown_class f) ≡ class_name Class.transform_bug) × Applies f v)
  separates_iff v f = (
    λ h. (
      (class_eq_iff (shown_class f) Class.transform_bug).0 (ground arith),
      (applies_iff f v).0 (ground arith),
    ),
    λ h.
        rw ((class_eq_iff (shown_class f) Class.transform_bug).1 h.0, (applies_iff f v).1 h.1) refl,
  )

  none_separates :
      (v : View) (fs : List (Finding P))
      → (not (any (separates v) fs) ≡ true) ↔ (
          (f : Finding P)
          → Memᴰ f fs
          → class_name (shown_class f) ≡ class_name Class.transform_bug
          → Applies f v
          → ⊥)
  none_separates v fs =
      let found = any_iff (separates v) fs in
      (
        λ h f m c a. cc (found.1 (f, m, (separates_iff v f).1 (c, a)), h),
        λ h. elim (Bool-cases (any (separates v) fs)) [
          | inr q ↦ rw q refl
          | inl q ↦
              let (f, m, s) = found.0 q in
              let (c, a) = (separates_iff v f).0 s in absurd (h f m c a)
        ],
      )

  pub companion_explained_iff :
      (v : View) (fs : List (Finding P)) (views : Option (List View))
      → (companion_explained v fs views ≡ true) ↔ CompanionExplained v fs views
  unfolding companion_explained
  companion_explained_iff v fs none = (λ h. cc h, λ h. cc h.1.2)
  companion_explained_iff v fs (some vs) = (
    λ h.
        let (iv, found, k) = given_by (view_at v.flow "iverilog" vs) (ground arith) in
        let apart : not (any (separates v) fs) ≡ true = ground arith in
        (
          (eq_iff v.runner "iverilog-vz").0 (ground arith),
          (
            vs,
            iv,
            refl,
            found,
            is_fail→≡ iv.status (ground arith),
            (is_explained_iff iv fs).0 (ground arith),
            (within_iff v.configs iv.configs).0 (ground arith),
            (none_separates v fs).0 apart,
          ),
        ),
    λ h. of_known h.0 h.1,
  )
    where
      given_by :
          (o : Option View)
          → explained_by v fs o ≡ true
          → (iv : View) × (o ≡ some iv) × (explained_by v fs (some iv) ≡ true)
      given_by none k = cc k
      given_by (some iv) k = (iv, refl, k)

      same_list : (ws : List View) → ◌≡◌ {A = Option (List View)} (some vs) (some ws) → vs ≡ ws
      same_list ws e = cc e

      of_known :
          v.runner ≡ "iverilog-vz"
          → ((ws : List View) × (iv : View) × (some vs ≡ some ws)
              × (view_at v.flow "iverilog" ws ≡ some iv)
              × (iv.status ≡ Status.fail)
              × Explained iv fs
              × FailedWithin v.configs iv.configs
              × ((f : Finding P)
                  → Memᴰ f fs
                  → class_name (shown_class f) ≡ class_name Class.transform_bug
                  → Applies f v
                  → ⊥))
          → (str_eq v.runner "iverilog-vz" && explained_by v fs (view_at v.flow "iverilog" vs))
            ≡ true
      of_known r (ws, iv, same, found, failed, explained, within, apart) =
          let here : view_at v.flow "iverilog" vs ≡ some iv =
            subst (λ xs. view_at v.flow "iverilog" xs ≡ some iv) (sym (same_list ws same)) found in
          rw
            (
              (eq_iff v.runner "iverilog-vz").1 r,
              here,
              failed,
              (is_explained_iff iv fs).1 explained,
              (within_iff v.configs iv.configs).1 within,
              (none_separates v fs).1 apart,
            )
            refl
