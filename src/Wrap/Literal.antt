-- ===== src/Wrap/Literal.antt =====
-- `_parse_literal` and `literal_value` of tools/xut/wrap.py, and the literal of an attribute by its kind:
-- `_render_bits`, `_render_x_bits`, `_render_string` and `_render_integer`. Of `\d`, the ASCII digits are
-- modelled.
use xilinx_unittests.Prelude.{
  ℕ, ◌+◌, ◌-◌, ◌*◌, ◌==◌, leb, ltb, Bool, false, not, ◌&&◌, ◌||◌, if◌then◌else◌, Option, none, some,
  [], ◌∷◌, any, all, reverse, Result, ok, err, ◌>>=◌, ◌>>◌, refuse,
}
use xilinx_unittests.Names.{Chars, is_digit, not_empty}
use xilinx_unittests.Xtr.{is_space}

-- `.strip()`
abbrev pub strip_left : Chars → Chars
strip_left [] = []
strip_left (c ∷ s) = let rest = strip_left s in if is_space c then rest else c ∷ s

abbrev pub strip : Chars → Chars
strip s = reverse (strip_left (reverse (strip_left s)))

-- The longest part of the text in front that is digits, and the rest.
abbrev pub span_digits : Chars → Chars × Chars
span_digits [] = ([], [])
span_digits (c ∷ s) =
    let rest = span_digits s in if is_digit c then (c ∷ rest.0, rest.1) else ([], c ∷ s)

-- A match of `_BASED`; the size is empty where there is none.
pub record Based : Type 0 where
  pub size : Chars
  pub base : ℕ
  pub digits : Chars

abbrev pub lower : ℕ → ℕ
lower c = if leb b'A' c && leb c b'Z' then c + 32 else c

abbrev pub is_base : ℕ → Bool
is_base c = any (λ d. lower c == d) (b'b' ∷ b'o' ∷ b'd' ∷ b'h' ∷ [])

abbrev pub is_hex : ℕ → Bool
is_hex c = is_digit c || leb b'a' c && leb c b'f' || leb b'A' c && leb c b'F'

abbrev pub is_unknown_digit : ℕ → Bool
is_unknown_digit c = lower c == b'x' || lower c == b'z' || c == b'?'

abbrev pub is_based_digit : ℕ → Bool
is_based_digit c = is_hex c || c == b'_' || is_unknown_digit c

abbrev pub skip_sign : Chars → Chars
skip_sign [] = []
skip_sign (c ∷ s) = if lower c == b's' then s else c ∷ s

abbrev pub based_from : Chars → Chars → Option Based
based_from size [] = none
based_from size (c ∷ digits) =
    if is_base c && not_empty digits && all is_based_digit digits
    then some (record { size = size; base = lower c; digits = digits })
    else none

abbrev pub based_after : Chars → Chars → Option Based
based_after size [] = none
based_after size (c ∷ s) = if c == b'\'' then based_from size (skip_sign s) else none

unfoldable pub match_based : Chars → Option Based
match_based s = based_after (span_digits s).0 (span_digits s).1

abbrev pub radix : ℕ → ℕ
radix base = if base == b'b' then 2 else if base == b'o' then 8 else if base == b'd' then 10 else 16

abbrev pub no_underscores : Chars → Chars
no_underscores [] = []
no_underscores (c ∷ s) = let rest = no_underscores s in if c == b'_' then rest else c ∷ rest

-- `int(digits, radix)`; `none` is the ValueError. For radix 2 a prefix `0b` is taken.
abbrev pub digit_value : ℕ → ℕ
digit_value c = if leb c b'9' then c - b'0' else (lower c - b'a') + 10

abbrev pub int_from : ℕ → ℕ → Chars → Option ℕ
int_from r n [] = some n
int_from r n (c ∷ s) =
    let rest = int_from r (r * n + digit_value c) s in
    if is_hex c && ltb (digit_value c) r then rest else none

abbrev pub int_of_digits : ℕ → Chars → Option ℕ
int_of_digits r [] = none
int_of_digits r (c ∷ s) = int_from r 0 (c ∷ s)

abbrev pub is_prefix : ℕ → ℕ → Bool
is_prefix c d = c == b'0' && lower d == b'b'

unfoldable pub int_of : ℕ → Chars → Option ℕ
int_of r (c ∷ d ∷ s) =
    if r == 2 && is_prefix c d then int_of_digits r s else int_of_digits r (c ∷ d ∷ s)
int_of r s = int_of_digits r s

pub data LiteralError : Type 0 where
  not_a_literal undefined_digits bad_digits : LiteralError

-- The size, and the value with its sign.
pub record Literal : Type 0 where
  pub size : Option ℕ
  pub is_negative : Bool
  pub value : ℕ

abbrev pub size_of : Chars → Option ℕ
size_of [] = none
size_of (c ∷ s) = int_of 10 (c ∷ s)

abbrev pub unsigned : Chars → Chars
unsigned [] = []
unsigned (c ∷ s) = if c == b'+' || c == b'-' then s else c ∷ s

abbrev pub is_minus : Chars → Bool
is_minus [] = false
is_minus (c ∷ s) = c == b'-'

-- `_DECIMAL`
abbrev pub is_decimal_text : Chars → Bool
is_decimal_text [] = false
is_decimal_text (c ∷ s) = is_digit c && all (λ d. is_digit d || d == b'_') s

abbrev pub value_or_bad : Option ℕ → Result LiteralError ℕ
value_or_bad none = err bad_digits
value_or_bad (some n) = ok n

abbrev pub parse_decimal : Chars → Result LiteralError Literal
parse_decimal s = do
  refuse (not (is_decimal_text (unsigned s))) not_a_literal
  n ← value_or_bad (int_of 10 (no_underscores (unsigned s)))
  ok (record { size = none; is_negative = is_minus s; value = n })

abbrev pub parse_based : Based → Result LiteralError Literal
parse_based m = do
  refuse (any is_unknown_digit (no_underscores m.digits)) undefined_digits
  n ← value_or_bad (int_of (radix m.base) (no_underscores m.digits))
  ok (record { size = size_of m.size; is_negative = false; value = n })

unfoldable pub parse_stripped : Chars → Result LiteralError Literal
unfolding match_based int_of
parse_stripped s = elim (match_based s) [ none ↦ parse_decimal s | some m ↦ parse_based m ]

-- `_parse_literal`
unfoldable pub parse_literal : Chars → Result LiteralError Literal
unfolding parse_stripped
parse_literal lit = parse_stripped (strip lit)
