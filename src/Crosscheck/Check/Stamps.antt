-- ===== src/Crosscheck/Check/Stamps.antt =====
-- The stamps of the results of a model source, when `_provenance_issues` finds nothing: one clean tree.
use xilinx_unittests.Prelude.{
  Bool, true, false, not, any, if◌then◌else◌, arith, ◌≡◌, refl, sym, ap, ◌∙◌, inl, inr, Bool-cases,
  Option, none, some, List, [], ◌∷◌, append-none,
}
use mathlib.Core.List.{Memᴰ}
use mathlib.Core.List.Memᴰ as MemD
use xilinx_unittests.Names.{Chars, chars_eq, chars_eq_refl, chars_eq→≡, member}
use xilinx_unittests.Crosscheck.{View, is_present}
use xilinx_unittests.Crosscheck.Points.{sort_with}
use xilinx_unittests.Crosscheck.Classify.Members.{mem-sort_with}
use xilinx_unittests.Crosscheck.Accounts.{
  TestIssue, view_lt, issues_over, is_clean_stamp, stale_at, hashes_of, is_mixed, provenance_issues,
}

pub issues_over-none :
    (f : View → List TestIssue) (v : View) (vs : List View)
    → issues_over f vs ≡ []
    → Memᴰ v vs
    → f v ≡ []
unfolding issues_over
issues_over-none f v [] h m = absurd (MemD.not-nil m)
issues_over-none f v (w ∷ vs) h m =
    let (here, later) = (append-none (f w) (issues_over f vs)).0 h in
    elim (MemD.cases_cons m) [ inl e ↦ ap f e ∙ here | inr t ↦ issues_over-none f v vs later t ]

pub is_clean_stamp→≡ :
    (v : View)
    → is_clean_stamp v ≡ true
    → (v.dirty ≡ some false) × ((h : Chars) × (v.tree_hash ≡ some h))
is_clean_stamp→≡ v h = (of_dirty v.dirty (ground arith), of_hash v.tree_hash (ground arith))
  where
    of_dirty : (d : Option Bool) → elim d [ none ↦ false | some d ↦ not d ] ≡ true → d ≡ some false
    of_dirty none k = cc k
    of_dirty (some true) k = cc k
    of_dirty (some false) k = refl

    of_hash : (t : Option Chars) → is_present t ≡ true → (h : Chars) × (t ≡ some h)
    of_hash none k = cc k
    of_hash (some h) k = (h, refl)

mem-hashes_of :
    (v : View) (h : Chars) (vs : List View)
    → Memᴰ v vs
    → v.has_stamp ≡ true
    → v.tree_hash ≡ some h
    → member h (hashes_of vs) ≡ true
mem-hashes_of v h [] m s t = absurd (MemD.not-nil m)
mem-hashes_of v h (w ∷ vs) m s t = elim (MemD.cases_cons m) [
  | inl e ↦
      rw (ap (λ (x : View). x.has_stamp) (sym e) ∙ s, ap (λ (x : View). x.tree_hash) (sym e) ∙ t)
        (rw (chars_eq_refl h) refl)
  | inr r ↦ later (mem-hashes_of v h vs r s t) w.has_stamp w.tree_hash
]
  where
    later :
        member h (hashes_of vs) ≡ true
        → (b : Bool) (t : Option Chars)
        → member h (
            let rest = hashes_of vs in
            if b then elim t [ none ↦ rest | some g ↦ g ∷ rest ] else rest)
          ≡ true
    later k false t = k
    later k true none = k
    later k true (some g) = elim (Bool-cases (chars_eq h g)) [ inl q ↦ rw q refl | inr q ↦ rw q k ]

-- Where there are not two different hashes, each is the first.
same_hash :
    (g h : Chars) (hs : List Chars)
    → any (λ x. not (chars_eq x h)) hs ≡ false
    → member g hs ≡ true
    → g ≡ h
same_hash g h [] k m = cc m
same_hash g h (x ∷ hs) k m = elim (Bool-cases (chars_eq x h)) [
  | inr q ↦ cc (rw q at k)
  | inl q ↦ elim (Bool-cases (chars_eq g x)) [
    | inl r ↦ chars_eq→≡ g x r ∙ chars_eq→≡ x h q
    | inr r ↦ same_hash g h hs (rw q at k) (rw r at m)
  ]
]

first_hash :
    (g h : Chars) (hs : List Chars) → is_mixed (h ∷ hs) ≡ false → member g (h ∷ hs) ≡ true → g ≡ h
first_hash g h hs k m = elim (Bool-cases (chars_eq g h)) [
  | inl q ↦ chars_eq→≡ g h q
  | inr q ↦ same_hash g h hs k (rw q at m)
]

not_mixed :
    (a b : Chars) (hs : List Chars)
    → is_mixed hs ≡ false
    → member a hs ≡ true
    → member b hs ≡ true
    → a ≡ b
not_mixed a b [] k m n = cc m
not_mixed a b (h ∷ hs) k m n = first_hash a h hs k m ∙ sym (first_hash b h hs k n)

-- The stamps, from the tests of the code.
pub one_tree_of :
    (views : List View)
    → ((v : View) → Memᴰ v views → v.has_stamp ≡ true → is_clean_stamp v ≡ true)
    → is_mixed (hashes_of views) ≡ false
    → (v w : View) → Memᴰ v views
    → Memᴰ w views
    → v.has_stamp ≡ true
    → w.has_stamp ≡ true
    → v.tree_hash ≡ w.tree_hash
one_tree_of views stamped one v w m n s t =
    let (g, hg) = (is_clean_stamp→≡ v (stamped v m s)).1 in
    let (h, hh) = (is_clean_stamp→≡ w (stamped w n t)).1 in
    let same =
      not_mixed g h (hashes_of views) one (mem-hashes_of v g views m s hg)
        (mem-hashes_of w h views n t hh) in
    hg ∙ ap some same ∙ sym hh

stale_at-none : (v : View) → stale_at v ≡ [] → v.has_stamp ≡ true → is_clean_stamp v ≡ true
stale_at-none v h s = elim (Bool-cases (is_clean_stamp v)) [
  | inl q ↦ q
  | inr q ↦ cc (rw (s, q) at h)
]

pub provenance_issues-none :
    (views : List View)
    → provenance_issues views ≡ []
    → ((v : View) → Memᴰ v views → v.has_stamp ≡ true → is_clean_stamp v ≡ true)
      × (is_mixed (hashes_of views) ≡ false)
unfolding provenance_issues
provenance_issues-none views h =
    let stale = issues_over stale_at (sort_with view_lt views) in
    let (no_stale, no_mix) = (append-none stale _).0 h in
    (
      λ v m s.
          stale_at-none v
            (issues_over-none stale_at v (sort_with view_lt views) no_stale
              (mem-sort_with view_lt v views m))
            s,
      elim (Bool-cases (is_mixed (hashes_of views))) [ inr q ↦ q | inl q ↦ cc (rw q at no_mix) ],
    )
