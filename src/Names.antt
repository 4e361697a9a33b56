-- ===== src/Names.antt =====
-- tools/xut/formats/common.py: the grammar of the names that the formats share, over texts as lists
-- of characters.
use xilinx_unittests.Prelude.{
  ℕ, Bool, true, false, ◌&&◌, ◌||◌, ◌==◌, leb, List, [], ◌∷◌, all, any, ◌≡◌, refl, ==_iff,
  Bool-cases, inl, inr,
}

-- A text, its first character (of a value its MSB) first.
abbrev pub Chars : Type 0
Chars = List ℕ

abbrev pub chars_eq : Chars → Chars → Bool
chars_eq [] [] = true
chars_eq (a ∷ x) (b ∷ y) = a == b && chars_eq x y
chars_eq [] (b ∷ y) = false
chars_eq (a ∷ x) [] = false

abbrev pub is_upper : ℕ → Bool
is_upper c = leb b'A' c && leb c b'Z'

abbrev pub is_lower : ℕ → Bool
is_lower c = leb b'a' c && leb c b'z'

abbrev pub is_digit : ℕ → Bool
is_digit c = leb b'0' c && leb c b'9'

-- `[A-Za-z_]`
abbrev pub is_first : ℕ → Bool
is_first c = is_upper c || is_lower c || c == b'_'

-- `[A-Za-z0-9_.-]`
abbrev pub is_cfg_char : ℕ → Bool
is_cfg_char c = is_first c || is_digit c || c == b'.' || c == b'-'

abbrev pub is_label_char : ℕ → Bool
is_label_char c = is_cfg_char c || c == b'/'

abbrev pub not_empty : Chars → Bool
not_empty [] = false
not_empty (c ∷ s) = true

unfoldable pub is_label : Chars → Bool
is_label s = not_empty s && all is_label_char s

unfoldable pub is_cfg : Chars → Bool
is_cfg s = not_empty s && all is_cfg_char s

unfoldable pub is_port : Chars → Bool
is_port [] = false
is_port (c ∷ s) = is_first c && all (λ d. is_first d || is_digit d || d == b'$') s

unfoldable pub is_header_key : Chars → Bool
is_header_key [] = false
is_header_key (c ∷ s) = is_first c && all (λ d. is_first d || is_digit d || d == b'.') s

-- `x in names`
abbrev pub member : Chars → List Chars → Bool
member x names = any (chars_eq x) names

pub chars_eq_refl : (x : Chars) → chars_eq x x ≡ true
chars_eq_refl [] = refl
chars_eq_refl (a ∷ x) = rw (((==_iff a a).1 refl), chars_eq_refl x) refl

pub chars_eq→≡ : (x y : Chars) → chars_eq x y ≡ true → x ≡ y
chars_eq→≡ [] [] h = refl
chars_eq→≡ [] (b ∷ y) h = cc
chars_eq→≡ (a ∷ x) [] h = cc
chars_eq→≡ (a ∷ x) (b ∷ y) h = elim (Bool-cases (a == b)) [
  | inl q ↦ rw ((==_iff a b).0 q, chars_eq→≡ x y (rw q at h)) refl
  | inr q ↦ absurd (cc (rw q at h))
]
