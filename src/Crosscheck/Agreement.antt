-- ===== src/Crosscheck/Agreement.antt =====
-- Agreement is never by omission: what evidence without a difference means.
use xilinx_unittests.Prelude.{
  ℕ, zero, suc, ◌+◌, ◌<◌, Bool, true, false, ◌==◌, ◌≡◌, refl, sym, ap, subst, ◌⊎◌, inl, inr,
  Bool-cases, arith, Option, none, some, [], ◌∷◌, ◌++◌, length, get_elem?, reverse, All,
}
use mathlib.Core.List.{reverse-cons, reverse-reverse}
use xilinx_unittests.Names.{Chars, chars_eq, chars_eq_refl}
use xilinx_unittests.Xtr.{Dict, Trace, keys, lookup}
use xilinx_unittests.Xtr.Compare.Order.{AreDistinct, apart}
use xilinx_unittests.Xtr.Compare.Matches.{lookup-member}
use xilinx_unittests.Xtr.Diff.{diff}
use xilinx_unittests.Xtr.Diff.Agrees.{InEither, BitsSame, ValuesSame, PortsSame, SamplesSame}
use xilinx_unittests.Xtr.Diff.Iff.{diff_iff}
use xilinx_unittests.Crosscheck.{
  is_compared, count_bits, count_port, count_ports, count_sample, count_samples, compared_bits,
}

-- Every entry of a dictionary is what a look-up of its key gives.
abbrev IsLooked : {A : Type 0} → Dict A → Dict A → Type 0
IsLooked d es = All (λ e. lookup e.0 d ≡ some e.1) es

module _ {A : Type 0} where
  IsLooked-cons :
      (k : Chars) (v : A) (d es : Dict A)
      → All (λ l. chars_eq l k ≡ false) (keys es)
      → IsLooked d es
      → IsLooked ((k, v) ∷ d) es
  unfolding lookup
  IsLooked-cons k v d [] h l = tt
  IsLooked-cons k v d ((j, w) ∷ es) h l = (rw h.0 l.0, IsLooked-cons k v d es h.1 l.1)

  IsLooked-all : (d : Dict A) → AreDistinct (keys d) → IsLooked d d
  unfolding lookup
  IsLooked-all [] h = tt
  IsLooked-all ((k, v) ∷ d) h =
      (rw (chars_eq_refl k) refl, IsLooked-cons k v d d (apart k (keys d) h.0) (IsLooked-all d h.1))

module _ (a_x b_x : Bool) where
  ValuesSame-append :
      (va vb : Chars) (a b : ℕ)
      → ValuesSame a_x b_x va vb
      → BitsSame a_x b_x a b
      → ValuesSame a_x b_x (va ++ a ∷ []) (vb ++ b ∷ [])
  ValuesSame-append [] [] a b h k = (k, tt)
  ValuesSame-append [] (y ∷ vb) a b h k = absurd h
  ValuesSame-append (x ∷ va) [] a b h k = absurd h
  ValuesSame-append (x ∷ va) (y ∷ vb) a b h k = (h.0, ValuesSame-append va vb a b h.1 k)

  ValuesSame-reverse :
      (va vb : Chars) → ValuesSame a_x b_x va vb → ValuesSame a_x b_x (reverse va) (reverse vb)
  ValuesSame-reverse [] [] h = tt
  ValuesSame-reverse [] (y ∷ vb) h = absurd h
  ValuesSame-reverse (x ∷ va) [] h = absurd h
  ValuesSame-reverse (x ∷ va) (y ∷ vb) h =
      rw (reverse-cons x va, reverse-cons y vb)
        (ValuesSame-append (reverse va) (reverse vb) x y (ValuesSame-reverse va vb h.1) h.0)

  compared_same : (a b : ℕ) → is_compared false a_x b_x a b ≡ true → BitsSame a_x b_x a b → a ≡ b
  compared_same a b h k = ground arith

  shown_bit :
      (va vb : Chars)
      → ValuesSame a_x b_x va vb
      → 0 < count_bits false a_x b_x va vb
      → (i : ℕ) × (c : ℕ) × (get_elem? va i ≡ some c) × (get_elem? vb i ≡ some c)
  shown_bit [] vb h n = absurd (omega (arith, n))
  shown_bit (a ∷ va) [] h n = absurd (omega (arith, n))
  shown_bit (a ∷ va) (b ∷ vb) h n = elim (Bool-cases (is_compared false a_x b_x a b)) [
    | inl q ↦ (0, a, refl, ap some (sym (compared_same a b q h.0)))
    | inr q ↦ let (i, c, ha, hb) = shown_bit va vb h.1 (rw q at n) in (suc i, c, ha, hb)
  ]

  -- A bit of a port, the MSB first, at which both values are one.
  abbrev pub ShowsBit : Option Chars → Option Chars → Type 0
  ShowsBit (some va) (some vb) =
      (i : ℕ) × (c : ℕ) × (get_elem? va i ≡ some c) × (get_elem? vb i ≡ some c)
  ShowsBit _ _ = ⊥

  shown_port :
      (va : Chars) (vb : Option Chars)
      → PortsSame a_x b_x (some va) vb
      → 0 < count_port false a_x b_x va vb
      → ShowsBit (some va) vb
  shown_port va none h n = absurd h
  shown_port va (some vb) h n = elim (Bool-cases (length va == length vb)) [
    | inl q ↦
        let turned = ValuesSame-reverse (reverse va) (reverse vb) h in
        shown_bit va vb (rw (reverse-reverse va, reverse-reverse vb) at turned) (rw q at n)
    | inr q ↦ absurd (omega (arith, rw q at n))
  ]

  known_port :
      (p : Chars) (d : Dict Chars) (va : Option Chars) (v : Chars)
      → va ≡ some v
      → PortsSame a_x b_x va (lookup p d)
      → PortsSame a_x b_x (some v) (lookup p d)
  known_port p d va v e h = subst (λ x. PortsSame a_x b_x x (lookup p d)) e h

  positive : (m n : ℕ) → 0 < m + n → (0 < m) ⊎ (0 < n)
  positive zero n h = inr (omega (arith, h))
  positive (suc m) n h = inl (omega arith)

  -- A port that both samples have, and such a bit of it.
  abbrev pub ShowsPort : Dict Chars → Dict Chars → Type 0
  ShowsPort pa pb = (p : Chars) × ShowsBit (lookup p pa) (lookup p pb)

  shown_ports :
      (pa pb es : Dict Chars)
      → IsLooked pa es
      → ((p : Chars)
          → InEither p (keys pa) (keys pb)
          → PortsSame a_x b_x (lookup p pa) (lookup p pb))
      → 0 < count_ports false a_x b_x pb es
      → ShowsPort pa pb
  shown_ports pa pb [] l h n = absurd (omega (arith, n))
  shown_ports pa pb ((p, va) ∷ es) l h n =
      elim (positive (count_port false a_x b_x va (lookup p pb)) (count_ports false a_x b_x pb es)
        n) [
          | inl here ↦
              let same = h p (inl (lookup-member p pa va l.0)) in
              let shown =
                shown_port va (lookup p pb) (known_port p pb (lookup p pa) va l.0 same) here in
              (p, subst (λ x. ShowsBit x (lookup p pb)) (sym l.0) shown)
          | inr later ↦ shown_ports pa pb es l.1 h later
        ]

  abbrev pub ShowsSample : Option (Dict Chars) → Option (Dict Chars) → Type 0
  ShowsSample (some pa) (some pb) = ShowsPort pa pb
  ShowsSample _ _ = ⊥

  shown_sample :
      (pa : Dict Chars) (pb : Option (Dict Chars))
      → AreDistinct (keys pa)
      → SamplesSame a_x b_x (some pa) pb
      → 0 < count_sample false a_x b_x pa pb
      → ShowsSample (some pa) pb
  shown_sample pa none d h n = absurd h
  shown_sample pa (some pb) d h n = shown_ports pa pb pa (IsLooked-all pa d) h n

  shown_samples :
      (sa sb es : Dict (Dict Chars))
      → IsLooked sa es
      → All (λ e. AreDistinct (keys e.1)) es
      → ((l : Chars)
          → InEither l (keys sa) (keys sb)
          → SamplesSame a_x b_x (lookup l sa) (lookup l sb))
      → 0 < count_samples false a_x b_x sb es
      → (l : Chars) × ShowsSample (lookup l sa) (lookup l sb)
  shown_samples sa sb [] k d h n = absurd (omega (arith, n))
  shown_samples sa sb ((l, pa) ∷ es) k d h n =
      elim (positive (count_sample false a_x b_x pa (lookup l sb))
        (count_samples false a_x b_x sb es) n) [
          | inl here ↦
              let same =
                subst (λ x. SamplesSame a_x b_x x (lookup l sb)) k.0
                  (h l (inl (lookup-member l sa pa k.0))) in
              let shown = shown_sample pa (lookup l sb) d.0 same here in
              (l, subst (λ x. ShowsSample x (lookup l sb)) (sym k.0) shown)
          | inr later ↦ shown_samples sa sb es k.1 d.1 h later
        ]

  -- Two runs without a difference, of whose traces at least one bit is counted as compared, agree on
  -- something: there are a label, a port and a bit at which both traces show the same character. In the
  -- traces no label and no port is there twice.
  pub compared_bits-ShowsSample :
      (ta tb : Trace)
      → AreDistinct (keys ta.samples)
      → All (λ (s : Chars × Dict Chars). AreDistinct (keys s.1)) ta.samples
      → AreDistinct (keys tb.samples)
      → diff a_x b_x ta tb ≡ []
      → 0 < compared_bits false a_x b_x ta tb
      → (l : Chars) × ShowsSample (lookup l ta.samples) (lookup l tb.samples)
  unfolding compared_bits
  compared_bits-ShowsSample ta tb da dp db h n =
      shown_samples ta.samples tb.samples ta.samples (IsLooked-all ta.samples da) dp
        ((diff_iff a_x b_x ta tb da db).0 h).same n
