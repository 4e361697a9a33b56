-- ===== src/Golden/Decimal.antt =====
-- `str(n)` writes every digit: the rounds that `decimal` counts are enough.
use xilinx_unittests.Prelude.{
  ℕ, zero, suc, ◌+◌, ◌-◌, ◌*◌, ◌/◌, ◌%◌, ◌<◌, Bool, true, ◌&&◌, leb, ltb, all, ◌≡◌, refl, ap, ◌∙◌,
  inl, inr, Bool-cases, arith, [], ◌∷◌,
}
use xilinx_unittests.Names.{Chars}
use xilinx_unittests.Golden.{digits_onto, decimal}

-- The number that decimal digits stand for, after digits that stand for `n`.
abbrev pub value_onto : ℕ → Chars → ℕ
value_onto n [] = n
value_onto n (c ∷ s) = value_onto (10 * n + (c - b'0')) s

abbrev pub is_decimal : ℕ → Bool
is_decimal c = leb b'0' c && ltb c (b'0' + 10)

last_digit : (n : ℕ) → 10 * (n / 10) + ((b'0' + n % 10) - b'0') ≡ n
last_digit n = omega arith

digits_onto-value :
    (f n : ℕ) (s : Chars) → n < f → value_onto 0 (digits_onto f n s) ≡ value_onto n s
unfolding digits_onto
digits_onto-value zero n s h = absurd (omega (arith, h))
digits_onto-value (suc f) n s h = elim (Bool-cases (ltb n 10)) [
  | inl q ↦ rw q (ap (λ k. value_onto k s) (omega arith))
  | inr q ↦ rw q (
      digits_onto-value f (n / 10) ((b'0' + n % 10) ∷ s) (ground arith)
      ∙ ap (λ k. value_onto k s) (last_digit n))
]

digits_onto-digits :
    (f n : ℕ) (s : Chars)
    → n < f
    → all is_decimal s ≡ true
    → all is_decimal (digits_onto f n s) ≡ true
unfolding digits_onto
digits_onto-digits zero n s h k = absurd (omega (arith, h))
digits_onto-digits (suc f) n s h k = elim (Bool-cases (ltb n 10)) [
  | inl q ↦ rw q (ground arith)
  | inr q ↦ rw q (digits_onto-digits f (n / 10) ((b'0' + n % 10) ∷ s) (ground arith) (ground arith))
]

-- For every number, the text is decimal digits and the number that they stand for is the one written: the
-- fuel of the writing is enough.
pub decimal-value : (n : ℕ) → (all is_decimal (decimal n) ≡ true) × (value_onto 0 (decimal n) ≡ n)
decimal-value n = (
  digits_onto-digits (n + 1) n [] (omega arith) refl,
  digits_onto-value (n + 1) n [] (omega arith),
)
