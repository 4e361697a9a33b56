-- ===== src/Wrap/Attribute.antt =====
-- `render_attr` of tools/xut/wrap.py for the kinds bits, string and integer: the Verilog literal of an
-- attribute's value. A real number is left aside.
use xilinx_unittests.Prelude.{
  ℕ, zero, suc, ◌+◌, ◌-◌, ◌/◌, ◌%◌, ◌^◌, ◌==◌, leb, ltb, Bool, true, false, not, ◌&&◌, ◌||◌,
  if◌then◌else◌, Option, none, some, [], ◌∷◌, ◌++◌, any, all, length, map, Result, ok, err, ◌>>=◌,
  ◌>>◌, refuse, map_err,
}
use xilinx_unittests.Names.{Chars, is_digit, not_empty}
use xilinx_unittests.Golden.{codes, decimal}
use xilinx_unittests.Wrap.Literal.{
  strip, Based, match_based, is_unknown_digit, no_underscores, radix, int_of, LiteralError,
  parse_literal, unsigned, is_minus, size_of,
}

-- A value of the YAML file: an integer is `of_nat n`, or `of_negative n` for -(n + 1).
pub data AttrValue : Type 0 where
  of_nat of_negative : ℕ → AttrValue
  of_text : Chars → AttrValue
  of_bool : Bool → AttrValue
  of_float : AttrValue

pub data AttrError : Type 0 where
  wrong_type no_fit no_size wrong_size bad_digits bad_character not_decimal : AttrError
  bad_literal : LiteralError → AttrError

-- `f"{value:0{count}x}"`, on fuel; `n + 1` rounds are enough, since a round divides by 16.
abbrev pub hex_char : ℕ → ℕ
hex_char d = if ltb d 10 then b'0' + d else b'a' + (d - 10)

unfoldable pub hex_onto : ℕ → ℕ → Chars → Chars
hex_onto zero n s = s
hex_onto (suc f) n s =
    let rest = hex_onto f (n / 16) (hex_char (n % 16) ∷ s) in
    if ltb n 16 then hex_char n ∷ s else rest

unfoldable pub padded : ℕ → Chars → Chars
padded zero s = s
padded (suc k) s = b'0' ∷ padded k s

unfoldable pub hex : ℕ → ℕ → Chars
unfolding hex_onto padded
hex count n = let s = hex_onto (n + 1) n [] in padded (count - length s) s

-- Every x or z digit as the largest of its base.
abbrev pub max_digit : ℕ → ℕ
max_digit base = if base == b'b' then b'1' else if base == b'o' then b'7' else b'f'

abbrev pub with_known : ℕ → Chars → Chars
with_known base s = map (λ c. if is_unknown_digit c then max_digit base else c) s

abbrev pub fits_top : ℕ → Option ℕ → Chars → Result AttrError (Option Chars)
fits_top width none lit = err bad_digits
fits_top width (some top) lit = if ltb top (2 ^ width) then ok (some lit) else err no_fit

abbrev pub check_size : ℕ → Option ℕ → Result AttrError (Unit {0})
check_size width none = err no_size
check_size width (some size) = refuse (not (size == width)) wrong_size

abbrev pub known_bits : ℕ → Chars → ℕ → Chars → Result AttrError (Option Chars)
known_bits width lit base digits =
    if base == b'd'
    then (if length digits == 1 then ok (some lit) else err bad_digits)
    else fits_top width (int_of (radix base) (with_known base digits)) lit

abbrev pub x_bits_of : ℕ → Chars → Based → Result AttrError (Option Chars)
x_bits_of width lit m = do
  check_size width (size_of m.size)
  known_bits width lit m.base (no_underscores m.digits)

-- `_render_x_bits`
unfoldable pub render_x_bits : ℕ → Chars → Result AttrError (Option Chars)
render_x_bits width lit = elim (match_based lit) [
  | none ↦ ok none
  | some m ↦ if any is_unknown_digit m.digits then x_bits_of width lit m else ok none
]

abbrev pub nat_bits : ℕ → ℕ → Result AttrError Chars
nat_bits width n =
    if not (ltb n (2 ^ width))
    then err no_fit
    else if width == 1
    then ok (codes "1'b" ++ decimal n)
    else ok (decimal width ++ codes "'h" ++ hex ((width + 3) / 4) n)

abbrev pub text_bits : ℕ → Chars → Result AttrError Chars
text_bits width lit = do
  l ← map_err bad_literal (parse_literal lit)
  check_size width l.size
  refuse (not (ltb l.value (2 ^ width))) no_fit
  ok lit

abbrev pub x_or_text : ℕ → Chars → Option Chars → Result AttrError Chars
x_or_text width lit (some x_lit) = ok x_lit
x_or_text width lit none = text_bits width lit

-- `_render_bits`
unfoldable pub render_bits : ℕ → AttrValue → Bool → Result AttrError Chars
unfolding hex render_x_bits
render_bits width (of_nat n) allow_x = nat_bits width n
render_bits width (of_negative n) allow_x = err no_fit
render_bits width (of_text s) allow_x =
    if allow_x
    then render_x_bits width (strip s) >>= x_or_text width (strip s)
    else text_bits width (strip s)
render_bits width (of_bool b) allow_x = err wrong_type
render_bits width of_float allow_x = err wrong_type

-- `_render_string`; a value of another kind is written as text first.
abbrev pub value_text : AttrValue → Result AttrError Chars
value_text (of_nat n) = ok (decimal n)
value_text (of_negative n) = ok (b'-' ∷ decimal (suc n))
value_text (of_text s) = ok s
value_text (of_bool b) = err wrong_type
value_text of_float = err wrong_type

abbrev pub is_quote : ℕ → Bool
is_quote c = c == b'"'

abbrev pub drop_last : Chars → Chars
drop_last [] = []
drop_last (c ∷ []) = []
drop_last (c ∷ d ∷ s) = c ∷ drop_last (d ∷ s)

abbrev pub ends_quoted : Chars → Bool
ends_quoted [] = false
ends_quoted (c ∷ []) = is_quote c
ends_quoted (c ∷ d ∷ s) = ends_quoted (d ∷ s)

abbrev pub unquoted : Chars → Chars
unquoted [] = []
unquoted (c ∷ s) = if is_quote c && ends_quoted s then drop_last s else c ∷ s

abbrev pub is_bad_in_string : ℕ → Bool
is_bad_in_string c = is_quote c || c == b'\\' || c == 10 || c == 13

unfoldable pub render_string : AttrValue → Result AttrError Chars
render_string v = do
  s ← value_text v
  refuse (any is_bad_in_string (unquoted s)) bad_character
  ok (b'"' ∷ unquoted s ++ b'"' ∷ [])

-- `_render_integer`: the sign and the size of the number are checked.
abbrev pub fits_int : Bool → ℕ → Bool
fits_int true n = leb n (2 ^ 31)
fits_int false n = ltb n (2 ^ 31)

abbrev pub signed_text : Bool → ℕ → Chars
signed_text true (suc n) = b'-' ∷ decimal (suc n)
signed_text _ n = decimal n

abbrev pub int_text : Bool → ℕ → Result AttrError Chars
int_text negative n = if fits_int negative n then ok (signed_text negative n) else err no_fit

abbrev pub text_int : Chars → Result AttrError Chars
text_int s =
    if not_empty (unsigned s) && all is_digit (unsigned s)
    then elim (int_of 10 (unsigned s)) [ none ↦ err not_decimal | some n ↦ int_text (is_minus s) n ]
    else err not_decimal

unfoldable pub render_integer : AttrValue → Result AttrError Chars
unfolding int_of
render_integer (of_nat n) = int_text false n
render_integer (of_negative n) = int_text true (suc n)
render_integer (of_text s) = text_int (strip s)
render_integer (of_bool b) = err wrong_type
render_integer of_float = err wrong_type
