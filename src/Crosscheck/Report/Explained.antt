-- ===== src/Crosscheck/Report/Explained.antt =====
-- `_explained` of tools/xut/crosscheck.py, as what it asks of the findings.
use mathlib.Core.List.{Memᴰ}
use mathlib.Core.List.Memᴰ as MemD
use xilinx_unittests.Prelude.{
  String, Bool, true, ◌&&◌, eq_iff, arith, ◌≡◌, ◌↔◌, refl, sym, ap, subst, inl, inr, Bool-cases,
  Option, none, some, List, [], ◌∷◌, any,
}
use xilinx_unittests.Names.{chars_eq, chars_eq_refl, chars_eq→≡}
use xilinx_unittests.Crosscheck.{Status, View}
use xilinx_unittests.Crosscheck.Findings.{
  Class, class_name, class_eq, Finding, has_string, is_value_class, applies_to_source, is_fail,
  shown_class, applies, is_explained,
}
use xilinx_unittests.Crosscheck.Findings.Marks.{has_string_iff}

pub any_iff {ℓ} :
    {A : Type ℓ} (p : A → Bool) (xs : List A)
    → (any p xs ≡ true) ↔ ((x : A) × Memᴰ x xs × (p x ≡ true))
any_iff p [] = (λ h. cc h, λ h. absurd (MemD.not-nil h.1))
any_iff p (x ∷ xs) =
    let later = any_iff p xs in
    elim (Bool-cases (p x)) [
      | inl q ↦ rw q (λ h. (x, MemD.head refl, q), λ h. refl)
      | inr q ↦ rw q (
        λ h. let (y, m, k) = later.0 h in (y, MemD.tail m, k),
        λ h. elim (MemD.cases_cons h.1) [
          | inl e ↦ cc (ap p e, h.2, q)
          | inr t ↦ later.1 (h.0, t, h.2)
        ],
      )
    ]

pub class_eq_iff : (c d : Class) → (class_eq c d ≡ true) ↔ (class_name c ≡ class_name d)
class_eq_iff c d = (
  chars_eq→≡ (class_name c) (class_name d),
  λ h. subst (λ n. chars_eq (class_name c) n ≡ true) h (chars_eq_refl (class_name c)),
)

pub is_fail→≡ : (s : Status) → is_fail s ≡ true → s ≡ Status.fail
is_fail→≡ Status.fail h = refl
is_fail→≡ Status.pass h = cc
is_fail→≡ Status.error h = cc
is_fail→≡ Status.skip h = cc
is_fail→≡ Status.not_run h = cc

-- A class of a disagreement on values.
abbrev pub IsValueClass : Class → Type 0
IsValueClass c =
    (d : Class) × Memᴰ d (
      Class.sim_divergence ∷ Class.doc_vs_model ∷ Class.doc_gap ∷ Class.transform_bug
      ∷ Class.flow_mismatch ∷ Class.silicon_mismatch ∷ [])
    × (class_name c ≡ class_name d)

abbrev pub IsOfSource : Option String → Option String → Type 0
IsOfSource none ms = Unit
IsOfSource (some s) ms = ms ≡ some s

IsOfSource-iff : (s ms : Option String) → (applies_to_source s ms ≡ true) ↔ IsOfSource s ms
IsOfSource-iff none ms = (λ h. tt, λ h. refl)
IsOfSource-iff (some s) none = (λ h. cc h, λ h. cc h)
IsOfSource-iff (some s) (some t) =
    (λ h. ap some (sym ((eq_iff s t).0 h)), λ h. (eq_iff s t).1 (cc h))

IsValueClass-iff : (c : Class) → (is_value_class c ≡ true) ↔ IsValueClass c
IsValueClass-iff c =
    let found = any_iff (class_eq c) (
      Class.sim_divergence ∷ Class.doc_vs_model ∷ Class.doc_gap ∷ Class.transform_bug
      ∷ Class.flow_mismatch ∷ Class.silicon_mismatch ∷ []) in
    (
      λ h. let (d, m, e) = found.0 h in (d, m, (class_eq_iff c d).0 e),
      λ h. found.1 (h.0, h.1, (class_eq_iff c h.0).1 h.2),
    )

module _ {P : Type 0} where
  -- The finding is of the flow of the result, and of its model source or of none.
  abbrev pub Applies : Finding P → View → Type 0
  Applies f v = (f.flow ≡ v.flow) × IsOfSource f.model_source v.model_source

  -- Some finding on values names the runner of the result and applies to it.
  abbrev pub Explained : View → List (Finding P) → Type 0
  Explained v fs =
      (f : Finding P) × Memᴰ f fs
      × IsValueClass (shown_class f)
      × Memᴰ v.runner f.runners
      × Applies f v

  pub applies_iff : (f : Finding P) (v : View) → (applies f v ≡ true) ↔ Applies f v
  applies_iff f v =
      let source = IsOfSource-iff f.model_source v.model_source in
      (
        λ h. ((eq_iff f.flow v.flow).0 (ground arith), source.0 (ground arith)),
        λ h. rw ((eq_iff f.flow v.flow).1 h.0, source.1 h.1) refl,
      )

  pub is_explained_iff :
      (v : View) (fs : List (Finding P)) → (is_explained v fs ≡ true) ↔ Explained v fs
  is_explained_iff v fs =
      let found =
        any_iff
          (λ f. is_value_class (shown_class f) && has_string f.runners v.runner && applies f v)
          fs in
      (
        λ h.
            let (f, m, k) = found.0 h in
            (
              f,
              m,
              (IsValueClass-iff (shown_class f)).0 (ground arith),
              (has_string_iff f.runners v.runner).0 (ground arith),
              (applies_iff f v).0 (ground arith),
            ),
        λ h. found.1 (
          h.0,
          h.1,
          rw
              (
                (IsValueClass-iff (shown_class h.0)).1 h.2,
                (has_string_iff h.0.runners v.runner).1 h.3,
                (applies_iff h.0 v).1 h.4,
              )
              refl,
        ),
      )
