-- ===== src/Wrap/Fits.antt =====
-- The literal of a bit-vector attribute: what is rendered is read back, at the width of the attribute.
use xilinx_unittests.Prelude.{
  ℕ, zero, suc, ◌+◌, ◌/◌, ◌^◌, ◌==◌, ==_iff, ◌<◌, ltb, ltb→lt, false, not, ◌≡◌, refl, sym, ap,
  subst, ◌∙◌, inl, inr, Bool-cases, Option-cases, arith, Option, none, some, [], ◌∷◌, ◌++◌, any,
  reverse, ok, refuse, refuse-ok, check-ok, bind-ok, ok-injective, map_err, map_err-ok,
}
use mathlib.Core.List.{append_assoc, reverse-cons, reverse-reverse}
use xilinx_unittests.Names.{Chars}
use xilinx_unittests.Xtr.{is_space}
use xilinx_unittests.Golden.{codes, decimal}
use xilinx_unittests.Golden.Decimal.{decimal-value}
use xilinx_unittests.Wrap.Literal.{
  strip_left, strip, Based, match_based, is_unknown_digit, no_underscores, radix, int_of, Literal,
  value_or_bad, parse_based, parse_stripped, parse_literal, unsigned, is_decimal_text,
}
use xilinx_unittests.Wrap.Attribute.{
  AttrValue, AttrError, hex, check_size, nat_bits, text_bits, render_bits,
}
use xilinx_unittests.Wrap.Digits.{
  hex-int_of, hex-plain, hex-filled, plain-no_underscores, plain-known, plain-based, plain-unspaced,
  decimal-plain, span_digits-quote, decimal-size_of,
}

-- A text without spaces is stripped to itself.
unspaced-append :
    (s t : Chars) → any is_space s ≡ false → any is_space t ≡ false → any is_space (s ++ t) ≡ false
unspaced-append [] t h k = k
unspaced-append (c ∷ s) t h k = elim (Bool-cases (is_space c)) [
  | inl q ↦ cc (rw q at h)
  | inr q ↦ rw q (unspaced-append s t (rw q at h) k)
]

unspaced-reverse : (s : Chars) → any is_space s ≡ false → any is_space (reverse s) ≡ false
unspaced-reverse [] h = refl
unspaced-reverse (c ∷ s) h = elim (Bool-cases (is_space c)) [
  | inl q ↦ cc (rw q at h)
  | inr q ↦
      rw (reverse-cons c s)
        (unspaced-append (reverse s) (c ∷ []) (unspaced-reverse s (rw q at h)) (rw q refl))
]

strip_left-unspaced : (s : Chars) → any is_space s ≡ false → strip_left s ≡ s
strip_left-unspaced [] h = refl
strip_left-unspaced (c ∷ s) h = elim (Bool-cases (is_space c)) [
  | inl q ↦ cc (rw q at h)
  | inr q ↦ rw q refl
]

strip-unspaced : (s : Chars) → any is_space s ≡ false → strip s ≡ s
strip-unspaced s h =
    rw (strip_left-unspaced s h, strip_left-unspaced (reverse s) (unspaced-reverse s h))
      (reverse-reverse s)

abbrev pub sized : ℕ → ℕ → Literal
sized width n = record { size = some width; is_negative = false; value = n }

-- The hexadecimal literal of a number.
abbrev hex_literal : ℕ → ℕ → ℕ → Chars
hex_literal width count n = decimal width ++ b'\'' ∷ b'h' ∷ hex count n

abbrev hex_match : ℕ → ℕ → ℕ → Based
hex_match width count n = record { size = decimal width; base = b'h'; digits = hex count n }

match_based-hex :
    (width count n : ℕ) → match_based (hex_literal width count n) ≡ some (hex_match width count n)
unfolding match_based
match_based-hex width count n =
    rw
      (
        span_digits-quote (decimal width) (b'h' ∷ hex count n) (decimal-value width).0,
        hex-filled count n,
        plain-based (hex count n) (hex-plain count n),
      )
      refl

parse_stripped-hex :
    (width count n : ℕ) → parse_stripped (hex_literal width count n) ≡ ok (sized width n)
unfolding parse_stripped
parse_stripped-hex width count n =
    rw
      (
        parse_stripped,
        match_based-hex width count n,
        plain-no_underscores (hex count n) (hex-plain count n),
        plain-known (hex count n) (hex-plain count n),
        hex-int_of count n,
        decimal-size_of width,
      )
      refl

hex_literal-unspaced : (width count n : ℕ) → any is_space (hex_literal width count n) ≡ false
hex_literal-unspaced width count n =
    unspaced-append (decimal width) (b'\'' ∷ b'h' ∷ hex count n)
      (plain-unspaced (decimal width) (decimal-plain (decimal width) (decimal-value width).0))
      (plain-unspaced (hex count n) (hex-plain count n))

parse_literal-hex :
    (width count n : ℕ) → parse_literal (hex_literal width count n) ≡ ok (sized width n)
unfolding parse_literal
parse_literal-hex width count n =
    rw
      (
        parse_literal,
        strip-unspaced (hex_literal width count n) (hex_literal-unspaced width count n),
      )
      (parse_stripped-hex width count n)

sized_as : (l : Literal) (w : ℕ) → l.size ≡ some w → l.is_negative ≡ false → l ≡ sized w l.value
sized_as l w h k = λ i. record { size = h i; is_negative = k i; value = l.value }

-- A literal with a size has no sign.
parse_stripped-positive :
    (s : Chars) (l : Literal) (w : ℕ)
    → parse_stripped s ≡ ok l
    → l.size ≡ some w
    → l ≡ sized w l.value
unfolding parse_stripped
parse_stripped-positive s l w h k = elim (Option-cases (match_based s)) [
  | inl q ↦
      let (checked, h1) =
        check-ok (refuse (not (is_decimal_text (unsigned s))) _) _ (rw (parse_stripped, q) at h) in
      let (n, hn, hl) = bind-ok (value_or_bad (int_of 10 (no_underscores (unsigned s)))) _ h1 in
      cc (ap (λ x. x.size) (ok-injective _ _ hl), k)
  | inr (m, q) ↦ of_based m (rw (parse_stripped, q) at h)
]
  where
    of_based : (m : Based) → parse_based m ≡ ok l → l ≡ sized w l.value
    of_based m g =
        let (checked, h1) =
          check-ok (refuse (any is_unknown_digit (no_underscores m.digits)) _) _ g in
        let (n, hn, hl) =
          bind-ok (value_or_bad (int_of (radix m.base) (no_underscores m.digits))) _ h1 in
        sized_as l w k (sym (ap (λ x. x.is_negative) (ok-injective _ _ hl)))

check_size-ok : (width : ℕ) (size : Option ℕ) → check_size width size ≡ ok tt → size ≡ some width
check_size-ok width none h = cc h
check_size-ok width (some n) h = elim (Bool-cases (n == width)) [
  | inl q ↦ ap some ((==_iff n width).0 q)
  | inr q ↦ cc (rw q at h)
]

-- The literal is of the width, and its value is below 2^width.
abbrev pub ReadsAs : ℕ → Chars → ℕ → Type 0
ReadsAs width lit n = (parse_literal lit ≡ ok (sized width n)) × (n < 2 ^ width)

text_bits-ReadsAs :
    (width : ℕ) (s lit : Chars) → text_bits width s ≡ ok lit → (n : ℕ) × ReadsAs width lit n
unfolding parse_literal
text_bits-ReadsAs width s lit h =
    let (l, hl, h1) = bind-ok (map_err AttrError.bad_literal (parse_literal s)) _ h in
    let (sizes, h2) = check-ok (check_size width l.size) _ h1 in
    let (small, h3) = check-ok (refuse (not (ltb l.value (2 ^ width))) _) _ h2 in
    let parsed = map_err-ok AttrError.bad_literal (parse_literal s) l hl in
    let exact =
      parse_stripped-positive (strip s) l width parsed (check_size-ok width l.size sizes) in
    let fits_top = refuse-ok (not (ltb l.value (2 ^ width))) _ small in
    (
      l.value,
      (
        subst (λ t. parse_literal t ≡ ok (sized width l.value)) (ok-injective _ _ h3)
            (parsed ∙ ap ok exact),
        ltb→lt l.value (2 ^ width) (ground arith),
      ),
    )

one_bit-ReadsAs : (n : ℕ) → n < 2 → parse_literal (codes "1'b" ++ decimal n) ≡ ok (sized 1 n)
unfolding parse_literal xilinx_unittests.Golden.digits_onto
one_bit-ReadsAs zero h = refl
one_bit-ReadsAs (suc zero) h = refl
one_bit-ReadsAs (suc (suc n)) h = absurd (omega (arith, h))

nat_bits-ReadsAs : (width n : ℕ) (lit : Chars) → nat_bits width n ≡ ok lit → ReadsAs width lit n
nat_bits-ReadsAs width n lit h = elim (Bool-cases (ltb n (2 ^ width))) [
  | inr q ↦ cc (rw q at h)
  | inl q ↦
      let small = ltb→lt n (2 ^ width) q in
      (
        elim (Bool-cases (width == 1)) [
          | inl one ↦
              let is_one = (==_iff width 1).0 one in
              subst (λ t. parse_literal t ≡ ok (sized width n))
                (ok-injective _ _ (rw (q, one) at h))
                (rw is_one (one_bit-ReadsAs n (rw is_one at small)))
          | inr more ↦
              let digits = hex ((width + 3) / 4) n in
              subst (λ t. parse_literal t ≡ ok (sized width n))
                (sym (append_assoc (decimal width) (codes "'h") digits)
                  ∙ ok-injective _ _ (rw (q, more) at h))
                (parse_literal-hex width ((width + 3) / 4) n)
        ],
        small,
      )
]

-- The number of a value that is one.
abbrev pub IsNumber : AttrValue → ℕ → Type 0
IsNumber (AttrValue.of_nat k) n = k ≡ n
IsNumber v n = Unit

-- A literal that is rendered for a bit-vector attribute, where x and z are not allowed, is read back as a
-- literal of exactly the width of the attribute and without a sign, with a value that fits it; and the value
-- is the number, where a number is rendered.
pub render_bits-ReadsAs :
    (width : ℕ) (v : AttrValue) (lit : Chars)
    → render_bits width v false ≡ ok lit
    → (n : ℕ) × ReadsAs width lit n × IsNumber v n
unfolding render_bits
render_bits-ReadsAs width (AttrValue.of_nat n) lit h = (n, nat_bits-ReadsAs width n lit h, refl)
render_bits-ReadsAs width (AttrValue.of_negative n) lit h = cc h
render_bits-ReadsAs width (AttrValue.of_text s) lit h =
    let (n, reads) = text_bits-ReadsAs width (strip s) lit h in (n, reads, tt)
render_bits-ReadsAs width (AttrValue.of_bool b) lit h = cc h
render_bits-ReadsAs width AttrValue.of_float lit h = cc h
