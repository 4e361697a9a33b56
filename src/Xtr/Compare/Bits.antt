-- ===== src/Xtr/Compare/Bits.antt =====
-- When the comparison of the bits, ports and samples of two traces finds nothing.
use xilinx_unittests.Prelude.{
  ℕ, suc, Bool, true, false, ◌||◌, ◌==◌, ==_iff, ◌≡◌, refl, sym, ap, subst, ◌↔◌, ◌⊎◌, inl, inr,
  Bool-cases, arith, Option, none, some, [], ◌∷◌, length, length-reverse, append-none, reverse, All,
}
use xilinx_unittests.Names.{Chars}
use xilinx_unittests.Xtr.{Dict, lookup, or_empty}
use xilinx_unittests.Xtr.Compare.{
  Mismatch, Shown, Kind, skipped, compare_bits, compare_port, compare_ports, compare_sample,
  compare_samples, at_port,
}

-- One expected bit, and what a run shows for it: a don't-care, an x or z that the run cannot show, or
-- the same bit.
abbrev pub BitAgrees : Bool → ℕ → ℕ → Type 0
BitAgrees x e a = (e ≡ b'-') ⊎ ((x ≡ false) × ((e ≡ b'x') ⊎ (e ≡ b'z'))) ⊎ (e ≡ a)

-- Two values of one width, bit by bit.
abbrev pub BitsAgree : Bool → Chars → Chars → Type 0
BitsAgree x [] [] = Unit
BitsAgree x (e ∷ es) (a ∷ acts) = BitAgrees x e a × BitsAgree x es acts
BitsAgree x _ _ = ⊥

-- A run has the port, with as many bits, which agree from the LSB up.
abbrev pub PortAgrees : Bool → Dict Chars → Chars × Chars → Type 0
PortAgrees x got port =
    (act : Chars) × (lookup port.0 got ≡ some act) × BitsAgree x (reverse port.1) (reverse act)

-- A run has the sample, and each expected port agrees.
abbrev pub SampleAgrees : Bool → Dict (Dict Chars) → Chars × Dict Chars → Type 0
SampleAgrees x samples sample =
    (got : Dict Chars) × (lookup sample.0 samples ≡ some got) × All (PortAgrees x got) sample.1

BitAgrees-test : (x : Bool) (e a : ℕ) → ((skipped x e || e == a) ≡ true) ↔ BitAgrees x e a
BitAgrees-test true e a = ground arith
BitAgrees-test false e a = ground arith

compare_bits-none :
    (x : Bool) (at : Shown → Shown → Option ℕ → Kind → Mismatch) (i : ℕ) (es acts : Chars)
    → length acts ≡ length es
    → (compare_bits x at i es acts ≡ []) ↔ BitsAgree x es acts
unfolding compare_bits
compare_bits-none x at i [] [] n = (λ h. tt, λ h. refl)
compare_bits-none x at i [] (a ∷ acts) n = absurd (omega (arith, n))
compare_bits-none x at i (e ∷ es) [] n = absurd (omega (arith, n))
compare_bits-none x at i (e ∷ es) (a ∷ acts) n =
    let later = compare_bits-none x at (suc i) es acts (omega (arith, n)) in
    let test = BitAgrees-test x e a in
    elim (Bool-cases (skipped x e || e == a)) [
      | inl q ↦ rw q (λ h. (test.0 q, later.0 h), λ h. later.1 h.1)
      | inr q ↦ rw q (λ h. cc, λ h. absurd (cc (test.1 h.0, q)))
    ]

BitsAgree-length : (x : Bool) (es acts : Chars) → BitsAgree x es acts → length acts ≡ length es
BitsAgree-length x [] [] h = refl
BitsAgree-length x [] (a ∷ acts) h = absurd h
BitsAgree-length x (e ∷ es) [] h = absurd h
BitsAgree-length x (e ∷ es) (a ∷ acts) h = ap suc (BitsAgree-length x es acts h.1)

some-injective : {A : Type 0} (a b : A) → some a ≡ some b → a ≡ b
some-injective a b h = cc h

compare_port-none :
    (x : Bool) (at : Shown → Shown → Option ℕ → Kind → Mismatch) (exp : Chars)
    (found : Option Chars)
    → (compare_port x at exp found ≡ [])
      ↔ ((act : Chars) × (found ≡ some act) × BitsAgree x (reverse exp) (reverse act))
unfolding compare_port
compare_port-none x at exp none = (λ h. cc, λ h. cc)
compare_port-none x at exp (some act) =
    let turned : (length (reverse act) ≡ length (reverse exp)) ↔ (length act ≡ length exp) =
      rw (length-reverse act, length-reverse exp) (λ h. h, λ h. h) in
    let given = λ (b : Chars) (s : some act ≡ some b) (h : BitsAgree x (reverse exp) (reverse b)).
      subst (λ c. BitsAgree x (reverse exp) (reverse c)) (sym (some-injective act b s)) h in
    elim (Bool-cases (length act == length exp)) [
      | inl q ↦
          let same = (==_iff (length act) (length exp)).0 q in
          let bits = compare_bits-none x at 0 (reverse exp) (reverse act) (turned.1 same) in
          rw q (λ h. (act, refl, bits.0 h), λ (b, s, h). bits.1 (given b s h))
      | inr q ↦ rw q (
        λ h. cc,
        λ (b, s, h).
            let same = turned.0 (BitsAgree-length x (reverse exp) (reverse act) (given b s h)) in
            absurd (cc ((==_iff (length act) (length exp)).1 same, q)),
      )
    ]

compare_ports-none :
    (x : Bool) (l : Chars) (prov got ports : Dict Chars)
    → (compare_ports x l prov got ports ≡ []) ↔ All (PortAgrees x got) ports
unfolding compare_ports
compare_ports-none x l prov got [] = (λ h. tt, λ h. refl)
compare_ports-none x l prov got ((p, exp) ∷ ports) =
    let at = at_port l p (lookup p prov) in
    let here = compare_port-none x at exp (lookup p got) in
    let later = compare_ports-none x l prov got ports in
    let both =
      append-none (compare_port x at exp (lookup p got)) (compare_ports x l prov got ports) in
    (λ h. (here.0 (both.0 h).0, later.0 (both.0 h).1), λ h. both.1 (here.1 h.0, later.1 h.1))

compare_sample-none :
    (x : Bool) (l : Chars) (prov ports : Dict Chars) (found : Option (Dict Chars))
    → (compare_sample x l prov ports found ≡ [])
      ↔ ((got : Dict Chars) × (found ≡ some got) × All (PortAgrees x got) ports)
unfolding compare_sample
compare_sample-none x l prov ports none = (λ h. cc, λ h. cc)
compare_sample-none x l prov ports (some got) =
    let all_ports = compare_ports-none x l prov got ports in
    (
      λ h. (got, refl, all_ports.0 h),
      λ (g, s, h).
          all_ports.1 (subst (λ d. All (PortAgrees x d) ports) (sym (some-injective got g s)) h),
    )

-- Nothing is found in the samples exactly where each expected sample is there and agrees.
pub compare_samples-none :
    (x : Bool) (prov got samples : Dict (Dict Chars))
    → (compare_samples x prov got samples ≡ []) ↔ All (SampleAgrees x got) samples
unfolding compare_samples
compare_samples-none x prov got [] = (λ h. tt, λ h. refl)
compare_samples-none x prov got ((l, ports) ∷ samples) =
    let tags = or_empty (lookup l prov) in
    let here = compare_sample-none x l tags ports (lookup l got) in
    let later = compare_samples-none x prov got samples in
    let both =
      append-none (compare_sample x l tags ports (lookup l got))
        (compare_samples x prov got samples) in
    (λ h. (here.0 (both.0 h).0, later.0 (both.0 h).1), λ h. both.1 (here.1 h.0, later.1 h.1))
