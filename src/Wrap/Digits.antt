-- ===== src/Wrap/Digits.antt =====
-- What is read from written digits: a number in base 16 or 10 is read back.
use xilinx_unittests.Prelude.{
  ℕ, zero, suc, ◌+◌, ◌-◌, ◌*◌, ◌/◌, ◌%◌, ◌==◌, leb, ltb, lt→ltb, ◌<◌, Bool, true, false, ◌&&◌, ◌||◌,
  ◌≡◌, refl, ap, ◌∙◌, inl, inr, Bool-cases, arith, some, [], ◌∷◌, ◌++◌, any, all, length,
}
use xilinx_unittests.Names.{Chars, is_digit, not_empty}
use xilinx_unittests.Xtr.{is_space}
use xilinx_unittests.Golden.{digits_onto, decimal}
use xilinx_unittests.Golden.Decimal.{value_onto, is_decimal, decimal-value}
use xilinx_unittests.Wrap.Literal.{
  is_hex, is_unknown_digit, is_based_digit, span_digits, no_underscores, digit_value, int_from,
  int_of, size_of,
}
use xilinx_unittests.Wrap.Attribute.{hex_char, hex_onto, padded, hex}

-- A digit as it is written.
abbrev pub is_written : ℕ → Bool
is_written c = leb b'0' c && leb c b'9' || leb b'a' c && leb c b'f'

hex_char-plain : (d : ℕ) → d < 16 → is_written (hex_char d) ≡ true
hex_char-plain d h = ground arith

hex_char-value : (d : ℕ) → d < 16 → digit_value (hex_char d) ≡ d
hex_char-value d h = ground arith

hex_char-hex : (d : ℕ) → d < 16 → is_hex (hex_char d) ≡ true
hex_char-hex d h = ground arith

int_from-hex :
    (n d : ℕ) (s : Chars) → d < 16 → int_from 16 n (hex_char d ∷ s) ≡ int_from 16 (16 * n + d) s
int_from-hex n d s h = rw (hex_char-value d h, hex_char-hex d h, lt→ltb d 16 h) refl

hex_onto-value : (f n : ℕ) (s : Chars) → n < f → int_from 16 0 (hex_onto f n s) ≡ int_from 16 n s
unfolding hex_onto
hex_onto-value zero n s h = absurd (omega (arith, h))
hex_onto-value (suc f) n s h = elim (Bool-cases (ltb n 16)) [
  | inl q ↦ rw q (int_from-hex 0 n s (ground arith) ∙ ap (λ k. int_from 16 k s) (omega arith))
  | inr q ↦ rw q (
      hex_onto-value f (n / 16) (hex_char (n % 16) ∷ s) (ground arith)
      ∙ int_from-hex (n / 16) (n % 16) s (omega arith)
      ∙ ap (λ k. int_from 16 k s) (omega arith))
]

hex_onto-plain :
    (f n : ℕ) (s : Chars) → n < f → all is_written s ≡ true → all is_written (hex_onto f n s) ≡ true
unfolding hex_onto
hex_onto-plain zero n s h k = absurd (omega (arith, h))
hex_onto-plain (suc f) n s h k = elim (Bool-cases (ltb n 16)) [
  | inl q ↦ rw (q, hex_char-plain n (ground arith)) k
  | inr q ↦ rw q (
      hex_onto-plain f (n / 16) (hex_char (n % 16) ∷ s) (ground arith)
        (rw (hex_char-plain (n % 16) (omega arith)) k))
]

hex_onto-filled : (f n : ℕ) (s : Chars) → n < f → not_empty (hex_onto f n s) ≡ true
unfolding hex_onto
hex_onto-filled zero n s h = absurd (omega (arith, h))
hex_onto-filled (suc f) n s h = elim (Bool-cases (ltb n 16)) [
  | inl q ↦ rw q refl
  | inr q ↦ rw q (hex_onto-filled f (n / 16) (hex_char (n % 16) ∷ s) (ground arith))
]

zeros-value : (k : ℕ) (s : Chars) → int_from 16 0 (padded k s) ≡ int_from 16 0 s
unfolding padded
zeros-value zero s = refl
zeros-value (suc k) s = zeros-value k s

zeros-plain : (k : ℕ) (s : Chars) → all is_written s ≡ true → all is_written (padded k s) ≡ true
unfolding padded
zeros-plain zero s h = h
zeros-plain (suc k) s h = zeros-plain k s h

zeros-filled : (k : ℕ) (s : Chars) → not_empty s ≡ true → not_empty (padded k s) ≡ true
unfolding padded
zeros-filled zero s h = h
zeros-filled (suc k) s h = refl

int_of-16 : (s : Chars) → not_empty s ≡ true → int_of 16 s ≡ int_from 16 0 s
unfolding int_of
int_of-16 [] h = cc h
int_of-16 (c ∷ []) h = refl
int_of-16 (c ∷ d ∷ s) h = refl

-- The number that is written with `hex`.
pub hex-int_of : (count n : ℕ) → int_of 16 (hex count n) ≡ some n
unfolding hex
hex-int_of count n =
    let s = hex_onto (n + 1) n [] in
    int_of-16 (padded (count - length s) s)
      (zeros-filled (count - length s) s (hex_onto-filled (n + 1) n [] (omega arith)))
    ∙ zeros-value (count - length s) s
    ∙ hex_onto-value (n + 1) n [] (omega arith)

pub hex-plain : (count n : ℕ) → all is_written (hex count n) ≡ true
unfolding hex
hex-plain count n =
    let s = hex_onto (n + 1) n [] in
    zeros-plain (count - length s) s (hex_onto-plain (n + 1) n [] (omega arith) refl)

pub hex-filled : (count n : ℕ) → not_empty (hex count n) ≡ true
unfolding hex
hex-filled count n =
    let s = hex_onto (n + 1) n [] in
    zeros-filled (count - length s) s (hex_onto-filled (n + 1) n [] (omega arith))

-- Such digits are read as they are.
plain-head :
    (c : ℕ) (s : Chars)
    → all is_written (c ∷ s) ≡ true
    → (is_written c ≡ true) × (all is_written s ≡ true)
plain-head c s h = elim (Bool-cases (is_written c)) [
  | inl q ↦ (q, rw q at h)
  | inr q ↦ cc (rw q at h)
]

pub plain-no_underscores : (s : Chars) → all is_written s ≡ true → no_underscores s ≡ s
plain-no_underscores [] h = refl
plain-no_underscores (c ∷ s) h =
    let (p, rest) = plain-head c s h in
    let other : (c == b'_') ≡ false = ground arith in
    rw other (ap (◌∷◌ c) (plain-no_underscores s rest))

pub plain-known : (s : Chars) → all is_written s ≡ true → any is_unknown_digit s ≡ false
plain-known [] h = refl
plain-known (c ∷ s) h =
    let (p, rest) = plain-head c s h in
    let other : is_unknown_digit c ≡ false = ground arith in rw other (plain-known s rest)

pub plain-based : (s : Chars) → all is_written s ≡ true → all is_based_digit s ≡ true
plain-based [] h = refl
plain-based (c ∷ s) h =
    let (p, rest) = plain-head c s h in
    let other : is_based_digit c ≡ true = ground arith in rw other (plain-based s rest)

pub plain-unspaced : (s : Chars) → all is_written s ≡ true → any is_space s ≡ false
plain-unspaced [] h = refl
plain-unspaced (c ∷ s) h =
    let (p, rest) = plain-head c s h in
    let other : is_space c ≡ false = ground arith in rw other (plain-unspaced s rest)

decimal-head :
    (c : ℕ) (s : Chars)
    → all is_decimal (c ∷ s) ≡ true
    → (is_decimal c ≡ true) × (all is_decimal s ≡ true)
decimal-head c s h = elim (Bool-cases (is_decimal c)) [
  | inl q ↦ (q, rw q at h)
  | inr q ↦ cc (rw q at h)
]

pub decimal-plain : (s : Chars) → all is_decimal s ≡ true → all is_written s ≡ true
decimal-plain [] h = refl
decimal-plain (c ∷ s) h =
    let (p, rest) = decimal-head c s h in
    let plain : is_written c ≡ true = ground arith in rw plain (decimal-plain s rest)

-- Decimal digits before a quote.
pub span_digits-quote :
    (s t : Chars) → all is_decimal s ≡ true → span_digits (s ++ b'\'' ∷ t) ≡ (s, b'\'' ∷ t)
span_digits-quote [] t h = refl
span_digits-quote (c ∷ s) t h =
    let (p, rest) = decimal-head c s h in
    let digit : is_digit c ≡ true = ground arith in rw (digit, span_digits-quote s t rest) refl

int_from-decimal :
    (n : ℕ) (s : Chars) → all is_decimal s ≡ true → int_from 10 n s ≡ some (value_onto n s)
int_from-decimal n [] h = refl
int_from-decimal n (c ∷ s) h =
    let (p, rest) = decimal-head c s h in
    let hex_digit : is_hex c ≡ true = ground arith in
    let value : digit_value c ≡ c - b'0' = ground arith in
    let small : ltb (c - b'0') 10 ≡ true = ground arith in
    rw (hex_digit, value, small) (int_from-decimal (10 * n + (c - b'0')) s rest)

digits_onto-filled : (f n : ℕ) (s : Chars) → n < f → not_empty (digits_onto f n s) ≡ true
unfolding digits_onto
digits_onto-filled zero n s h = absurd (omega (arith, h))
digits_onto-filled (suc f) n s h = elim (Bool-cases (ltb n 10)) [
  | inl q ↦ rw q refl
  | inr q ↦ rw q (digits_onto-filled f (n / 10) ((b'0' + n % 10) ∷ s) (ground arith))
]

size_of-filled :
    (s : Chars) → not_empty s ≡ true → all is_decimal s ≡ true → size_of s ≡ some (value_onto 0 s)
unfolding int_of
size_of-filled [] h k = cc h
size_of-filled (c ∷ []) h k = int_from-decimal 0 (c ∷ []) k
size_of-filled (c ∷ d ∷ s) h k = int_from-decimal 0 (c ∷ d ∷ s) k

-- The size that is written with `decimal`.
pub decimal-size_of : (n : ℕ) → size_of (decimal n) ≡ some n
decimal-size_of n =
    let (digits, value) = decimal-value n in
    size_of-filled (decimal n) (digits_onto-filled (n + 1) n [] (omega arith)) digits
    ∙ ap some value
