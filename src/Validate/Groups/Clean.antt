-- ===== src/Validate/Groups/Clean.antt =====
-- What the rules promise of the events of one time in which they find no error.
use xilinx_unittests.Prelude.{
  ℕ, ◌≤◌, ◌<◌, Bool, true, false, not, ◌&&◌, ltb, if◌then◌else◌, ◌≡◌, ◌⊎◌, inl, inr, refl, ◌∙◌, ap,
  arith, Bool-cases, Option, some, List, [], ◌∷◌, ◌++◌, length, any, all, All, append-none, String,
  ok, bind-ok, ok-injective,
}
use xilinx_unittests.Xvec.{Op, Event}
use xilinx_unittests.Dut.{Bit}
use xilinx_unittests.Validate.Report.{Problem, Report, ◌⊕◌, problems, problem_if, is_nil}
use xilinx_unittests.Validate.Groups.{
  Context, Levels, Lists, is_async_class, count_async, classes_of, lists_of, all_lists, samples,
  changes, marked, group_report, lonely_problems, sample_problems, check_changes, check_group,
  check_groups,
}

-- A change that no other may accompany: an edge, a global signal, or a set of an async or gate bit.
abbrev pub NeedsAloneAs : List Bit → Event → Op → Type 0
NeedsAloneAs ins e Op.edge = Unit
NeedsAloneAs ins e Op.glbl = Unit
NeedsAloneAs ins e Op.set =
    (cs : List String) × (classes_of ins e ≡ ok cs) × (any is_async_class cs ≡ true)
NeedsAloneAs ins e _ = ⊥

abbrev pub NeedsAlone : List Bit → Event → Type 0
NeedsAlone ins e = NeedsAloneAs ins e e.op

-- The events at one time: no sample with a change, and, where some change is not marked as
-- simultaneous, no change beside one that must be alone.
pub record IsCleanGroup (ins : List Bit) (g : List Event) : Type 0 where
  pub apart : (samples g ≡ []) ⊎ (changes g ≡ [])
  pub alone :
      (all marked (changes g) ≡ true)
      ⊎ All (λ e. NeedsAlone ins e → length (changes g) ≤ 1) (changes g)

count_async-any : (cs : List String) → any is_async_class cs ≡ true → 0 < count_async cs
count_async-any [] h = cc
count_async-any (c ∷ cs) h = elim (Bool-cases (is_async_class c)) [
  | inl q ↦ rw q (omega arith)
  | inr q ↦ rw q (omega (arith, count_async-any cs (rw q at h)))
]

lists_of-alone :
    (ins : List Bit) (t : ℕ) (several : Bool) (e : Event) (op : Op) (l : Lists)
    → lists_of ins t several e op ≡ ok l
    → l.lonely ≡ []
    → NeedsAloneAs ins e op
    → several ≡ false
unfolding lists_of
lists_of-alone ins t true e Op.edge l h q n = cc (ok-injective _ l h, q)
lists_of-alone ins t false e Op.edge l h q n = refl
lists_of-alone ins t true e Op.glbl l h q n = cc (ok-injective _ l h, q)
lists_of-alone ins t false e Op.glbl l h q n = refl
lists_of-alone ins t false e Op.set l h q n = refl
lists_of-alone ins t true e Op.set l h q (cs, found, some_async) =
    let (ds, here, made) = bind-ok (classes_of ins e) _ h in
    let same : cs ≡ ds = cc (found, here) in
    let positive = count_async-any ds (rw same at some_async) in
    let listed = ap (λ (k : Lists). k.lonely) (ok-injective _ l made) ∙ q in
    ground (arith, listed, positive)
lists_of-alone ins t several e Op.sample l h q n = absurd n
lists_of-alone ins t several e Op.clock_start l h q n = absurd n
lists_of-alone ins t several e Op.clock_stop l h q n = absurd n
lists_of-alone ins t several e Op.end l h q n = absurd n
lists_of-alone ins t several e (Op.unknown o) l h q n = absurd n

all_lists-alone :
    (ins : List Bit) (t : ℕ) (several : Bool) (es : List Event) (l : Lists)
    → all_lists ins t several es ≡ ok l
    → l.lonely ≡ []
    → All (λ e. NeedsAlone ins e → several ≡ false) es
unfolding all_lists
all_lists-alone ins t several [] l h q = tt
all_lists-alone ins t several (e ∷ es) l h q =
    let (a, here, h1) = bind-ok (lists_of ins t several e e.op) _ h in
    let (b, rest, h2) = bind-ok (all_lists ins t several es) _ h1 in
    let same = ok-injective _ l h2 in
    let both = (append-none a.lonely b.lonely).0 (cc (same, q)) in
    (
      lists_of-alone ins t several e e.op a here both.0,
      all_lists-alone ins t several es b rest both.1,
    )

pub problem_if-none : (b : Bool) (p : Problem) → (problem_if b p).errors ≡ [] → b ≡ false
problem_if-none true p h = cc
problem_if-none false p h = refl

pub ⊕-none : (r s : Report) → (r ⊕ s).errors ≡ [] → (r.errors ≡ []) × (s.errors ≡ [])
⊕-none r s = (append-none r.errors s.errors).0

apart_of :
    (ss cs : List Event) → (not (is_nil ss) && not (is_nil cs)) ≡ false → (ss ≡ []) ⊎ (cs ≡ [])
apart_of [] cs h = inl refl
apart_of (s ∷ ss) [] h = inr refl
apart_of (s ∷ ss) (c ∷ cs) h = cc

not_several : (n : ℕ) → ltb 1 n ≡ false → n ≤ 1
not_several n h = ground arith

All-map : (P Q : Event → Type 0) (es : List Event) → ((e : Event) → P e → Q e) → All P es → All Q es
All-map P Q [] f h = tt
All-map P Q (e ∷ es) f h = (f e h.0, All-map P Q es f h.1)

group_report-IsCleanGroup :
    (c : Context) (t : ℕ) (last_change : Option ℕ) (g : List Event) (l : Lists)
    → all_lists c.ins t (ltb 1 (length (changes g))) (changes g) ≡ ok l
    → (group_report c t last_change g l).errors ≡ []
    → IsCleanGroup c.ins g
group_report-IsCleanGroup c t last_change g l h q =
    let several = ltb 1 (length (changes g)) in
    let sharing =
      problem_if (not (is_nil (samples g)) && not (is_nil (changes g)))
        (Problem.sample_with_change t) in
    let soon = problems (sample_problems c.gap t last_change (samples g)) in
    let lines = if all marked (changes g) then [] else l.mixed ++ lonely_problems t l.lonely in
    let first = (append-none ((sharing ⊕ soon).errors ++ lines) []).0 q in
    let second = (append-none (sharing ⊕ soon).errors lines).0 first.0 in
    let third = (append-none sharing.errors soon.errors).0 second.0 in
    record {
      apart =
          apart_of (samples g) (changes g)
            (problem_if-none _ (Problem.sample_with_change t) third.0);
      alone = elim (Bool-cases (all marked (changes g))) [
        | inl m ↦ inl m
        | inr m ↦ inr (
            let quiet : l.mixed ++ lonely_problems t l.lonely ≡ [] = rw m at second.1 in
            let none_lonely = no_lonely t l.lonely ((append-none l.mixed _).0 quiet).1 in
            All-map _ _ (changes g) (λ e f n. not_several (length (changes g)) (f n))
              (all_lists-alone c.ins t several (changes g) l h none_lonely))
      ];
    }
  where
    no_lonely : (t : ℕ) (es : List Event) → lonely_problems t es ≡ [] → es ≡ []
    no_lonely t [] h = refl
    no_lonely t (e ∷ es) h = cc

pub check_groups-IsCleanGroup :
    (c : Context) (last_change : Option ℕ) (gs : List (ℕ × List Event)) (levels : Levels)
    (r : Report)
    → check_groups c last_change gs levels ≡ ok r
    → r.errors ≡ []
    → All (λ g. IsCleanGroup c.ins g.1) gs
unfolding check_groups
check_groups-IsCleanGroup c last_change [] levels r h q = tt
check_groups-IsCleanGroup c last_change ((t, g) ∷ gs) levels r h q =
    let next = if is_nil (changes g) then last_change else some t in
    let (here, first, h1) = bind-ok (check_group c t last_change g levels) _ h in
    let (rest, later, h2) = bind-ok (check_groups c next gs here.1) _ h1 in
    let both = ⊕-none here.0 rest (ap (λ (x : Report). x.errors) (ok-injective _ r h2) ∙ q) in
    let (lists, listed, h3) =
      bind-ok (all_lists c.ins t (ltb 1 (length (changes g))) (changes g)) _ first in
    let (after, changed, h4) = bind-ok (check_changes c t (changes g) levels) _ h3 in
    let made = ap (λ (x : Report × Levels). x.0.errors) (ok-injective _ here h4) ∙ both.0 in
    (
      group_report-IsCleanGroup c t last_change g lists listed
          (⊕-none (group_report c t last_change g lists) after.0 made).0,
      check_groups-IsCleanGroup c next gs here.1 rest later both.1,
    )
