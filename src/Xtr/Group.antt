-- ===== src/Xtr/Group.antt =====
-- `_group` of tools/xut/formats/xtr.py and the way `loads` undoes it.
use xilinx_unittests.Prelude.{
  ℕ, zero, suc, ◌%◌, false, ◌==◌, leb, ◌≡◌, refl, List, [], ◌∷◌, ◌++◌, length, take, drop,
  take-drop, any, Bool-cases, inl, inr,
}
use mathlib.Core.List.{append-nil}
use xilinx_unittests.Names.{Chars}
use xilinx_unittests.Xtr.{fours, join, head_part, group, ungroup}

flatten : List Chars → Chars
flatten [] = []
flatten (p ∷ ps) = p ++ flatten ps

ungroup-append : (s r : Chars) → ungroup (s ++ r) ≡ ungroup s ++ ungroup r
unfolding ungroup
ungroup-append [] r = refl
ungroup-append (c ∷ s) r = elim (Bool-cases (c == b'_')) [
  | inl q ↦ rw (q, ungroup-append s r) refl
  | inr q ↦ rw (q, ungroup-append s r) refl
]

ungroup-join : (ps : List Chars) → ungroup (join ps) ≡ ungroup (flatten ps)
unfolding ungroup join flatten
ungroup-join [] = refl
ungroup-join (p ∷ []) = rw (append-nil p) refl
ungroup-join (p ∷ q ∷ ps) =
    rw
      (
        ungroup-append p (b'_' ∷ join (q ∷ ps)),
        ungroup-append p (flatten (q ∷ ps)),
        ungroup-join (q ∷ ps),
      )
      refl

flatten-fours : (s : Chars) → flatten (fours s) ≡ s
unfolding flatten fours
flatten-fours [] = refl
flatten-fours (a ∷ []) = refl
flatten-fours (a ∷ b ∷ []) = refl
flatten-fours (a ∷ b ∷ c ∷ []) = refl
flatten-fours (a ∷ b ∷ c ∷ d ∷ s) = rw (flatten-fours s) refl

flatten-head_part :
    (n : ℕ) (s : Chars) (ps : List Chars) → flatten (head_part n s ++ ps) ≡ take n s ++ flatten ps
unfolding flatten
flatten-head_part zero s ps = refl
flatten-head_part (suc n) s ps = refl

ungroup-plain : (s : Chars) → any (λ c. c == b'_') s ≡ false → ungroup s ≡ s
unfolding ungroup
ungroup-plain [] h = refl
ungroup-plain (c ∷ s) h = elim (Bool-cases (c == b'_')) [
  | inl q ↦ absurd (cc (rw q at h))
  | inr q ↦ rw (q, ungroup-plain s (rw q at h)) refl
]

-- Bits that hold no underscore are what is left of their groups without the underscores.
pub ungroup-group : (bits : Chars) → any (λ c. c == b'_') bits ≡ false → ungroup (group bits) ≡ bits
unfolding group
ungroup-group bits h =
    let head = length bits % 4 in
    elim (Bool-cases (leb (length bits) 4)) [
      | inl q ↦ rw q (ungroup-plain bits h)
      | inr q ↦
          rw
            (
              q,
              ungroup-join (head_part head bits ++ fours (drop head bits)),
              flatten-head_part head bits (fours (drop head bits)),
              flatten-fours (drop head bits),
              take-drop head bits,
            )
            (ungroup-plain bits h)
    ]
