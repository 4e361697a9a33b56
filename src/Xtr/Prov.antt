-- ===== src/Xtr/Prov.antt =====
-- `prov_token` of tools/xut/formats/xtr.py and `bit_prov` of tools/xut/golden.py: the provenance of an
-- output as one token of a trace line, and that of a bit read off the token.
use xilinx_unittests.Prelude.{
  ℕ, zero, suc, ◌<◌, Bool, true, false, ◌==◌, if◌then◌else◌, ◌≡◌, refl, sym, ap, ◌∙◌, inl, inr,
  Bool-cases, arith, Option, some, List, [], ◌∷◌, ◌++◌, length, get_elem?, any, all, All,
}
use xilinx_unittests.Names.{Chars, chars_eq, chars_eq→≡, chars_eq_refl}

-- One tag for every bit, or a tag for each, that of the LSB first.
pub data Prov : Type 0 where
  one : Chars → Prov
  each : List Chars → Prov

-- `",".join(tags)`
unfoldable pub commas : List Chars → Chars
commas [] = []
commas (t ∷ []) = t
commas (t ∷ u ∷ ts) = t ++ b',' ∷ commas (u ∷ ts)

-- `prov_token`; `Out` refuses an empty tuple.
unfoldable pub prov_token : Prov → Chars
unfolding commas
prov_token (one t) = t
prov_token (each []) = []
prov_token (each (t ∷ ts)) = if all (chars_eq t) ts then t else commas (t ∷ ts)

abbrev pub onto_first : ℕ → List Chars → List Chars
onto_first c [] = (c ∷ []) ∷ []
onto_first c (p ∷ ps) = (c ∷ p) ∷ ps

-- `token.split(",")`
unfoldable pub split : Chars → List Chars
split [] = [] ∷ []
split (c ∷ s) = let rest = split s in if c == b',' then [] ∷ rest else onto_first c rest

-- `tags[0] if len(tags) == 1 else tags[bit]`; `none` is the IndexError.
abbrev pub tag_at : List Chars → ℕ → Option Chars
tag_at (t ∷ []) k = some t
tag_at ts k = get_elem? ts k

unfoldable pub bit_prov : Chars → ℕ → Option Chars
unfolding split
bit_prov token k = tag_at (split token) k

abbrev pub has_comma : Chars → Bool
has_comma t = any (λ c. c == b',') t

split-tag : (t : Chars) → has_comma t ≡ false → split t ≡ t ∷ []
unfolding split
split-tag [] h = refl
split-tag (c ∷ t) h = elim (Bool-cases (c == b',')) [
  | inl q ↦ absurd (cc (rw q at h))
  | inr q ↦ rw (q, split-tag t (rw q at h)) refl
]

split-append : (t s : Chars) → has_comma t ≡ false → split (t ++ b',' ∷ s) ≡ t ∷ split s
unfolding split
split-append [] s h = refl
split-append (c ∷ t) s h = elim (Bool-cases (c == b',')) [
  | inl q ↦ absurd (cc (rw q at h))
  | inr q ↦ rw (q, split-append t s (rw q at h)) refl
]

split-commas :
    (t : Chars) (ts : List Chars)
    → All (λ u. has_comma u ≡ false) (t ∷ ts)
    → split (commas (t ∷ ts)) ≡ t ∷ ts
unfolding commas
split-commas t [] h = split-tag t h.0
split-commas t (u ∷ ts) h =
    split-append t (commas (u ∷ ts)) h.0 ∙ ap (◌∷◌ t) (split-commas u ts h.1)

same_tag :
    (t : Chars) (ts : List Chars) (k : ℕ)
    → all (chars_eq t) ts ≡ true
    → k < length ts
    → get_elem? ts k ≡ some t
same_tag t [] k h lt = absurd (omega arith)
same_tag t (u ∷ ts) zero h lt = elim (Bool-cases (chars_eq t u)) [
  | inl q ↦ ap some (sym (chars_eq→≡ t u q))
  | inr q ↦ absurd (cc (rw q at h))
]
same_tag t (u ∷ ts) (suc k) h lt = elim (Bool-cases (chars_eq t u)) [
  | inl q ↦ same_tag t ts k (rw q at h) (omega arith)
  | inr q ↦ absurd (cc (rw q at h))
]

-- For tags without a comma, one for each bit, the provenance read for a bit off the token of a trace
-- line is that bit's tag.
pub bit_prov-prov_token :
    (tags : List Chars) (k : ℕ)
    → All (λ t. has_comma t ≡ false) tags
    → k < length tags
    → bit_prov (prov_token (each tags)) k ≡ get_elem? tags k
unfolding prov_token bit_prov
bit_prov-prov_token [] k h lt = absurd (omega arith)
bit_prov-prov_token (t ∷ []) k h lt =
    rw (split-tag t h.0) (sym (same_tag t (t ∷ []) k (rw (chars_eq_refl t) refl) lt))
bit_prov-prov_token (t ∷ u ∷ ts) k h lt = elim (Bool-cases (all (chars_eq t) (u ∷ ts))) [
  | inl q ↦ rw (q, split-tag t h.0) (sym (same_tag t (t ∷ u ∷ ts) k (rw (chars_eq_refl t) q) lt))
  | inr q ↦ rw (q, split-commas t (u ∷ ts) h) refl
]
