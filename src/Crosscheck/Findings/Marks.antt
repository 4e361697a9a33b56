-- ===== src/Crosscheck/Findings/Marks.antt =====
-- An expected divergence never hides a finding: what `covers` and `_mark` of tools/xut/crosscheck.py do with the
-- entries.
use mathlib.Core.List.{Memᴰ}
use mathlib.Core.List.Memᴰ as MemD
use xilinx_unittests.Prelude.{
  String, true, str_eq, eq_iff, arith, ◌≡◌, ◌↔◌, ◌⊎◌, refl, ap, subst, inl, inr, Bool-cases, Option,
  none, some, List, [], ◌∷◌, ◌++◌, all, All,
}
use xilinx_unittests.Names.{Chars, chars_eq, chars_eq_refl, chars_eq→≡}
use xilinx_unittests.Crosscheck.Findings.{
  Class, class_name, Finding, Entry, has_string, in_scope, covers, mark_from,
}

-- A key of an entry that is not there takes every value; one that is there, those in its list.
abbrev pub Allows : Option (List String) → Option String → Type 0
Allows none value = Unit
Allows (some xs) none = ⊥
Allows (some xs) (some s) = Memᴰ s xs

-- The entry is in scope: it has the class of the finding, all its runners, and its model source and flow.
pub record Covers {P : Type 0} (e : Entry) (f : Finding P) : Type 0 where
  pub same_class : class_name e.cls ≡ class_name f.cls
  pub all_runners : All (λ r. Memᴰ r e.runners) f.runners
  pub source : Allows e.model_sources f.model_source
  pub flow : Allows e.flows (some f.flow)

pub has_string_iff : (xs : List String) (s : String) → (has_string xs s ≡ true) ↔ Memᴰ s xs
has_string_iff [] s = (λ h. cc h, λ m. absurd (MemD.not-nil m))
has_string_iff (x ∷ xs) s =
    let later = has_string_iff xs s in
    elim (Bool-cases (str_eq s x)) [
      | inl q ↦ rw q (λ h. MemD.head ((eq_iff s x).0 q), λ m. refl)
      | inr q ↦ rw q (
        λ h. MemD.tail (later.0 h),
        λ m. elim (MemD.cases_cons m) [ inl e ↦ cc ((eq_iff s x).1 e, q) | inr t ↦ later.1 t ],
      )
    ]

in_scope_iff :
    (xs : Option (List String)) (v : Option String) → (in_scope xs v ≡ true) ↔ Allows xs v
in_scope_iff none v = (λ h. tt, λ h. refl)
in_scope_iff (some xs) none = (λ h. cc h, λ h. absurd h)
in_scope_iff (some xs) (some s) = has_string_iff xs s

all_runners_iff : (xs rs : List String) → (all (has_string xs) rs ≡ true) ↔ All (λ r. Memᴰ r xs) rs
all_runners_iff xs [] = (λ h. tt, λ h. refl)
all_runners_iff xs (r ∷ rs) =
    let here = has_string_iff xs r in
    let later = all_runners_iff xs rs in
    (λ h. (here.0 (ground arith), later.0 (ground arith)), λ h. rw (here.1 h.0, later.1 h.1) refl)

module _ {P : Type 0} where
  pub covers_iff : (e : Entry) (f : Finding P) → (covers e f ≡ true) ↔ Covers e f
  unfolding covers
  covers_iff e f =
      let runners = all_runners_iff e.runners f.runners in
      let source = in_scope_iff e.model_sources f.model_source in
      let flow = in_scope_iff e.flows (some f.flow) in
      (
        λ h. record {
          same_class = chars_eq→≡ (class_name e.cls) (class_name f.cls) (ground arith);
          all_runners = runners.0 (ground arith);
          source = source.0 (ground arith);
          flow = flow.0 (ground arith);
        },
        λ h.
            rw
              (
                subst (λ n. chars_eq (class_name e.cls) n ≡ true) h.same_class
                    (chars_eq_refl (class_name e.cls)),
                runners.1 h.all_runners,
                source.1 h.source,
                flow.1 h.flow,
              )
              refl,
      )

  -- A finding as it is reported where an entry lists it: the class that it had is kept beside the new one.
  pub record IsKnown (f : Finding P) (id : Chars) (g : Finding P) : Type 0 where
    pub cls : g.cls ≡ Class.known_divergence
    pub known_of : g.known_of ≡ some f.cls
    pub finding : g.finding ≡ some id
    pub expected : g.expected ≡ true
    pub test_id : g.test_id ≡ f.test_id
    pub flow : g.flow ≡ f.flow
    pub model_source : g.model_source ≡ f.model_source
    pub runners : g.runners ≡ f.runners
    pub points : (g.points ≡ f.points) × (g.more ≡ f.more)

module _ {P : Type 0} (stem : Chars → Chars) (want : Chars) (f : Finding P) where
  -- The entry is in scope for the finding, and has its id.
  abbrev pub Lists : Entry → Type 0
  Lists e = Covers e f × (stem e.finding ≡ want)

  -- Those of some entries that are in scope, in their order.
  abbrev pub AreInScope : List Entry → List Entry → Type 0
  AreInScope [] issues = issues ≡ []
  AreInScope (e ∷ es) issues =
      (¬ Covers e f × AreInScope es issues)
      ⊎ ((rest : List Entry) × (issues ≡ e ∷ rest) × Covers e f × AreInScope es rest)

  -- What becomes of the finding, where these entries are left when the search ends.
  abbrev pub Ends : Finding P → List Entry → Type 0
  Ends g [] = g ≡ f
  Ends g (e ∷ es) = Lists e × IsKnown f want g

  -- The entries up to the first that lists the finding, what is given back of them, and the finding.
  abbrev pub IsMarked : List Entry → Finding P × List Entry → Type 0
  IsMarked es (g, issues) =
      (passed left : List Entry) × (es ≡ passed ++ left)
      × All (λ e. ¬ Lists e) passed
      × AreInScope passed issues
      × Ends g left

  -- The entries are searched in their order for the first that is in scope for the finding, by its class,
  -- runners, model source and flow, and has its id. Where there is one, the finding is reported as a known
  -- divergence, which keeps its class beside the new one and all else; where there is none, as it is. Given
  -- back as issues are exactly those before it that are in scope, in their order.
  pub mark_from-IsMarked : (es : List Entry) → IsMarked es (mark_from stem want f es)
  unfolding mark_from
  mark_from-IsMarked [] = ([], [], refl, tt, refl, refl)
  mark_from-IsMarked (e ∷ es) =
      let (passed, left, split, none_lists, issues, ends) = mark_from-IsMarked es in
      let scope = covers_iff e f in
      elim (Bool-cases (covers e f)) [
        | inr q ↦
            let out : ¬ Covers e f = λ c. cc (scope.1 c, q) in
            rw q (
              e ∷ passed,
              left,
              ap (λ l. e ∷ l) split,
              (λ l. out l.0, none_lists),
              inl (out, issues),
              ends,
            )
        | inl q ↦ elim (Bool-cases (chars_eq (stem e.finding) want)) [
          | inl k ↦
              rw (q, k)
                (
                  [],
                  e ∷ es,
                  refl,
                  tt,
                  refl,
                  (
                    (scope.0 q, chars_eq→≡ (stem e.finding) want k),
                    record {
                      cls = refl;
                      known_of = refl;
                      finding = refl;
                      expected = refl;
                      test_id = refl;
                      flow = refl;
                      model_source = refl;
                      runners = refl;
                      points = (refl, refl);
                    },
                  ),
                )
          | inr k ↦
              let other : ¬ Lists e = λ l. cc (
                subst (λ n. chars_eq (stem e.finding) n ≡ true) l.1
                    (chars_eq_refl (stem e.finding)),
                k,
              ) in
              rw (q, k)
                (
                  e ∷ passed,
                  left,
                  ap (λ l. e ∷ l) split,
                  (other, none_lists),
                  inr ((mark_from stem want f es).1, refl, scope.0 q, issues),
                  ends,
                )
        ]
      ]
