-- ===== src/Validate/Whole/Attributes.antt =====
-- The comparison of the attributes in `_check_header` of tools/xut/validate.py looks at every one that either side
-- has.
use Prim.Native.String.{compare}
use text.Mathlib.Text.{is_lt}
use xilinx_unittests.Prelude.{
  String, Bool, true, false, ◌||◌, str_eq, eq_iff, ◌≡◌, refl, sym, ap, ◌∙◌, inl, inr, Bool-cases,
  arith, Option, none, some, List, [], ◌∷◌, ◌++◌, any, append-none,
}
use xilinx_unittests.Validate.Report.{value_of, same_value, insert_key, sorted_keys, attr_problems}

abbrev has_key : String → List String → Bool
has_key k ks = any (str_eq k) ks

has_key-insert_key :
    (k j : String) (ks : List String) → has_key k (insert_key j ks) ≡ (str_eq k j || has_key k ks)
unfolding insert_key
has_key-insert_key k j [] = refl
has_key-insert_key k j (i ∷ ks) =
    let later = has_key-insert_key k j ks in
    elim (Bool-cases (str_eq j i)) [
      | inl q ↦ rw (q, (eq_iff j i).0 q) (ground arith)
      | inr q ↦ elim (Bool-cases (is_lt (compare j i))) [
        | inl r ↦ rw (q, r) refl
        | inr r ↦ rw (q, r) (ground (arith, later))
      ]
    ]

-- An attribute that is not among the keys has no value.
value_of-none :
    (k : String) (d : List (String × String))
    → has_key k (sorted_keys d) ≡ false
    → value_of k d ≡ none
unfolding sorted_keys
value_of-none k [] h = refl
value_of-none k ((j, v) ∷ d) h =
    let split = has_key-insert_key k j (sorted_keys d) in
    let other : str_eq k j ≡ false = ground (arith, split) in
    let rest : has_key k (sorted_keys d) ≡ false = ground (arith, split) in
    elim (Bool-cases (str_eq j k)) [
      | inl q ↦ cc ((eq_iff k j).1 (sym ((eq_iff j k).0 q)), other)
      | inr q ↦ rw q (value_of-none k d rest)
    ]

has_key-append :
    (k : String) (c d : List (String × String))
    → has_key k (sorted_keys (c ++ d)) ≡ (has_key k (sorted_keys c) || has_key k (sorted_keys d))
unfolding sorted_keys
has_key-append k [] d = refl
has_key-append k ((j, v) ∷ c) d = ground (
  arith,
  has_key-insert_key k j (sorted_keys (c ++ d)),
  has_key-insert_key k j (sorted_keys c),
  has_key-append k c d,
)

same_value→≡ : (a b : Option String) → same_value a b ≡ true → a ≡ b
same_value→≡ none none h = refl
same_value→≡ none (some b) h = cc
same_value→≡ (some a) none h = cc
same_value→≡ (some a) (some b) h = ap some ((eq_iff a b).0 h)

keys-same :
    (have want : List (String × String)) (ks : List String) (k : String)
    → attr_problems have want ks ≡ []
    → has_key k ks ≡ true
    → value_of k have ≡ value_of k want
keys-same have want [] k h m = cc
keys-same have want (j ∷ ks) k h m =
    let (here, later) = (append-none _ (attr_problems have want ks)).0 h in
    elim (Bool-cases (same_value (value_of j have) (value_of j want))) [
      | inr r ↦ cc (rw r at here)
      | inl r ↦ elim (Bool-cases (str_eq k j)) [
        | inl q ↦ rw ((eq_iff k j).0 q) (same_value→≡ (value_of j have) (value_of j want) r)
        | inr q ↦ keys-same have want ks k later (rw q at m)
      ]
    ]

-- Where no attribute is a problem, each has one value on both sides, or is on neither.
pub attr_problems-none :
    (have want : List (String × String))
    → attr_problems have want (sorted_keys (have ++ want)) ≡ []
    → (k : String) → value_of k have ≡ value_of k want
attr_problems-none have want h k =
    let split = has_key-append k have want in
    elim (Bool-cases (has_key k (sorted_keys (have ++ want)))) [
      | inl q ↦ keys-same have want (sorted_keys (have ++ want)) k h q
      | inr q ↦
          let ours : has_key k (sorted_keys have) ≡ false = ground (arith, split) in
          let theirs : has_key k (sorted_keys want) ≡ false = ground (arith, split) in
          value_of-none k have ours ∙ sym (value_of-none k want theirs)
    ]
