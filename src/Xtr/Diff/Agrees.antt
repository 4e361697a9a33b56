-- ===== src/Xtr/Diff/Agrees.antt =====
-- When the comparison of the bits, ports and samples of two runs finds nothing.
use xilinx_unittests.Prelude.{
  ℕ, suc, Bool, true, false, ◌==◌, ==_iff, ◌≡◌, refl, sym, ap, subst, ◌↔◌, ◌⊎◌, inl, inr,
  Bool-cases, arith, Option, none, some, List, [], ◌∷◌, ◌++◌, append-none, length, length-reverse,
  reverse, All,
}
use xilinx_unittests.Names.{Chars, chars_eq, chars_eq→≡, chars_eq_refl, member}
use xilinx_unittests.Xtr.{Dict, keys, lookup}
use xilinx_unittests.Xtr.Diff.{
  is_xz, is_same, fresh, union, diff_bits, diff_port, diff_ports, diff_sample, diff_samples,
}

-- A name of one list or the other.
abbrev pub InEither : Chars → List Chars → List Chars → Type 0
InEither k ks ms = (member k ks ≡ true) ⊎ (member k ms ≡ true)

-- A statement on the names of both lists, one by one.
module _ (Q : Chars → Type 0) where
  All-at : (k : Chars) (ks : List Chars) → All Q ks → member k ks ≡ true → Q k
  All-at k [] h m = cc m
  All-at k (j ∷ ks) h m = elim (Bool-cases (chars_eq k j)) [
    | inl q ↦ subst Q (sym (chars_eq→≡ k j q)) h.0
    | inr q ↦ All-at k ks h.1 (rw q at m)
  ]

  pub All-intro : (ks : List Chars) → ((k : Chars) → member k ks ≡ true → Q k) → All Q ks
  All-intro [] h = tt
  All-intro (k ∷ ks) h = (
    h k (rw (chars_eq_refl k) refl),
    All-intro ks
        (λ j m. h j (elim (Bool-cases (chars_eq j k)) [ inl q ↦ rw q refl | inr q ↦ rw q m ])),
  )

member-append : (k : Chars) (ks ms : List Chars) → (member k (ks ++ ms) ≡ true) ↔ InEither k ks ms
member-append k [] ms = (λ h. inr h, λ h. elim h [ inl e ↦ cc | inr m ↦ m ])
member-append k (j ∷ ks) ms = elim (Bool-cases (chars_eq k j)) [
  | inl q ↦ rw q (λ h. inl refl, λ h. refl)
  | inr q ↦ rw q (member-append k ks ms)
]

member-fresh :
    (k : Chars) (known ms : List Chars) → (member k (fresh known ms) ≡ true) → member k ms ≡ true
member-fresh k known [] h = h
member-fresh k known (j ∷ ms) h = elim (Bool-cases (chars_eq k j)) [
  | inl q ↦ rw q refl
  | inr q ↦ elim (Bool-cases (member j known)) [
    | inl i ↦ rw q (member-fresh k known ms (rw i at h))
    | inr i ↦
        let later : member k (fresh known ms) ≡ true = rw (i, q) at h in
        rw q (member-fresh k known ms later)
  ]
]

member-union : (k : Chars) (ks ms : List Chars) → InEither k ks ms → member k (union ks ms) ≡ true
member-union k ks ms (inl h) = (member-append k ks (fresh ks ms)).1 (inl h)
member-union k ks ms (inr h) = (member-append k ks (fresh ks ms)).1 (known_or_fresh ms h)
  where
    known_or_fresh : (ms : List Chars) → member k ms ≡ true → InEither k ks (fresh ks ms)
    known_or_fresh [] h = inr h
    known_or_fresh (j ∷ ms) h = elim (Bool-cases (chars_eq k j)) [
      | inl q ↦ elim (Bool-cases (member j ks)) [
        | inl i ↦ inl (subst (λ m. member m ks ≡ true) (sym (chars_eq→≡ k j q)) i)
        | inr i ↦ rw i (inr (rw q refl))
      ]
      | inr q ↦ elim (Bool-cases (member j ks)) [
        | inl i ↦ rw i (known_or_fresh ms (rw q at h))
        | inr i ↦
            rw i (elim (known_or_fresh ms (rw q at h)) [ inl e ↦ inl e | inr m ↦ inr (rw q m) ])
      ]
    ]

-- On every name of the union, and on every name of either list.
pub All-union :
    (Q : Chars → Type 0) (ks ms : List Chars)
    → All Q (union ks ms) ↔ ((k : Chars) → InEither k ks ms → Q k)
All-union Q ks ms = (
  λ h. λ k i. All-at Q k (union ks ms) h (member-union k ks ms i),
  λ h. All-intro Q (union ks ms) (λ k m. h k (elim ((member-append k ks (fresh ks ms)).0 m) [
    | inl e ↦ inl e
    | inr f ↦ inr (member-fresh k ks ms f)
  ])),
)

-- One bit of two runs: the same, or an x or z of a run where the other cannot show one.
abbrev pub BitsSame : Bool → Bool → ℕ → ℕ → Type 0
BitsSame a_x b_x a b =
    (a ≡ b) ⊎ ((is_xz a ≡ true) × (b_x ≡ false)) ⊎ ((is_xz b ≡ true) × (a_x ≡ false))

abbrev pub ValuesSame : Bool → Bool → Chars → Chars → Type 0
ValuesSame a_x b_x [] [] = Unit
ValuesSame a_x b_x (a ∷ va) (b ∷ vb) = BitsSame a_x b_x a b × ValuesSame a_x b_x va vb
ValuesSame a_x b_x _ _ = ⊥

-- Both runs have the port, with as many bits, which agree from the LSB up.
abbrev pub PortsSame : Bool → Bool → Option Chars → Option Chars → Type 0
PortsSame a_x b_x (some va) (some vb) = ValuesSame a_x b_x (reverse va) (reverse vb)
PortsSame a_x b_x _ _ = ⊥

-- Both runs have the sample, and agree on every port of either.
abbrev pub SamplesSame : Bool → Bool → Option (Dict Chars) → Option (Dict Chars) → Type 0
SamplesSame a_x b_x (some pa) (some pb) =
    (p : Chars) → InEither p (keys pa) (keys pb) → PortsSame a_x b_x (lookup p pa) (lookup p pb)
SamplesSame a_x b_x _ _ = ⊥

module _ (a_x b_x : Bool) where
  BitsSame-test : (a b : ℕ) → (is_same a_x b_x a b ≡ true) ↔ BitsSame a_x b_x a b
  BitsSame-test a b = ground arith

  diff_bits-none :
      (l p : Chars) (i : ℕ) (va vb : Chars)
      → length va ≡ length vb
      → (diff_bits a_x b_x l p i va vb ≡ []) ↔ ValuesSame a_x b_x va vb
  unfolding diff_bits
  diff_bits-none l p i [] [] n = (λ h. tt, λ h. refl)
  diff_bits-none l p i [] (b ∷ vb) n = absurd (omega (arith, n))
  diff_bits-none l p i (a ∷ va) [] n = absurd (omega (arith, n))
  diff_bits-none l p i (a ∷ va) (b ∷ vb) n =
      let later = diff_bits-none l p (suc i) va vb (omega (arith, n)) in
      let test = BitsSame-test a b in
      elim (Bool-cases (is_same a_x b_x a b)) [
        | inl q ↦ rw q (λ h. (test.0 q, later.0 h), λ h. later.1 h.1)
        | inr q ↦ rw q (λ h. cc, λ h. absurd (cc (test.1 h.0, q)))
      ]

  ValuesSame-length : (va vb : Chars) → ValuesSame a_x b_x va vb → length va ≡ length vb
  ValuesSame-length [] [] h = refl
  ValuesSame-length [] (b ∷ vb) h = absurd h
  ValuesSame-length (a ∷ va) [] h = absurd h
  ValuesSame-length (a ∷ va) (b ∷ vb) h = ap suc (ValuesSame-length va vb h.1)

  diff_port-none :
      (l p : Chars) (va vb : Option Chars)
      → (diff_port a_x b_x l p va vb ≡ []) ↔ PortsSame a_x b_x va vb
  unfolding diff_port
  diff_port-none l p none vb = (λ h. cc, λ h. absurd h)
  diff_port-none l p (some va) none = (λ h. cc, λ h. absurd h)
  diff_port-none l p (some va) (some vb) =
      let turned : (length (reverse va) ≡ length (reverse vb)) ↔ (length va ≡ length vb) =
        rw (length-reverse va, length-reverse vb) (λ h. h, λ h. h) in
      elim (Bool-cases (length va == length vb)) [
        | inl q ↦ rw q (
            diff_bits-none l p 0 (reverse va) (reverse vb)
              (turned.1 ((==_iff (length va) (length vb)).0 q)))
        | inr q ↦ rw q (
          λ h. cc,
          λ h.
              let same = turned.0 (ValuesSame-length (reverse va) (reverse vb) h) in
              absurd (cc ((==_iff (length va) (length vb)).1 same, q)),
        )
      ]

  diff_ports-none :
      (l : Chars) (pa pb : Dict Chars) (ps : List Chars)
      → (diff_ports a_x b_x l pa pb ps ≡ [])
        ↔ All (λ p. PortsSame a_x b_x (lookup p pa) (lookup p pb)) ps
  unfolding diff_ports
  diff_ports-none l pa pb [] = (λ h. tt, λ h. refl)
  diff_ports-none l pa pb (p ∷ ps) =
      let here = diff_port-none l p (lookup p pa) (lookup p pb) in
      let later = diff_ports-none l pa pb ps in
      let both =
        append-none (diff_port a_x b_x l p (lookup p pa) (lookup p pb))
          (diff_ports a_x b_x l pa pb ps) in
      (λ h. (here.0 (both.0 h).0, later.0 (both.0 h).1), λ h. both.1 (here.1 h.0, later.1 h.1))

  diff_sample-none :
      (l : Chars) (pa pb : Option (Dict Chars))
      → (diff_sample a_x b_x l pa pb ≡ []) ↔ SamplesSame a_x b_x pa pb
  unfolding diff_sample
  diff_sample-none l none pb = (λ h. cc, λ h. absurd h)
  diff_sample-none l (some pa) none = (λ h. cc, λ h. absurd h)
  diff_sample-none l (some pa) (some pb) =
      let ports = diff_ports-none l pa pb (union (keys pa) (keys pb)) in
      let each =
        All-union (λ p. PortsSame a_x b_x (lookup p pa) (lookup p pb)) (keys pa) (keys pb) in
      (λ h. each.0 (ports.0 h), λ h. ports.1 (each.1 h))

  pub diff_samples-none :
      (sa sb : Dict (Dict Chars)) (ls : List Chars)
      → (diff_samples a_x b_x sa sb ls ≡ [])
        ↔ All (λ l. SamplesSame a_x b_x (lookup l sa) (lookup l sb)) ls
  unfolding diff_samples
  diff_samples-none sa sb [] = (λ h. tt, λ h. refl)
  diff_samples-none sa sb (l ∷ ls) =
      let here = diff_sample-none l (lookup l sa) (lookup l sb) in
      let later = diff_samples-none sa sb ls in
      let both =
        append-none (diff_sample a_x b_x l (lookup l sa) (lookup l sb))
          (diff_samples a_x b_x sa sb ls) in
      (λ h. (here.0 (both.0 h).0, later.0 (both.0 h).1), λ h. both.1 (here.1 h.0, later.1 h.1))
