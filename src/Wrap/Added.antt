-- ===== src/Wrap/Added.antt =====
-- What a port adds to the bits of a map: a run of them, or three for a bidirectional port.
use xilinx_unittests.Prelude.{
  ℕ, zero, suc, ◌+◌, String, true, false, if◌then◌else◌, str_eq, eq_iff, ◌≡◌, refl, ap, subst, ◌∙◌,
  inl, inr, Bool-cases, arith, List, [], ◌∷◌, ◌++◌, All, All-append,
}
use mathlib.Core.List.{append-nil, append_assoc}
use xilinx_unittests.Dut.{Vector, vector_eq, Bit, contains}
use xilinx_unittests.Wrap.{PortSpec, Layout, add_bits, vector_of, add_port}
use xilinx_unittests.Wrap.Counted.{add_from-count}
use xilinx_unittests.Wrap.Runs.{
  bits_run, add_from-bits, here, here-append, here-run, here-other, is_other,
}

-- Every bit is of a port that was seen.
abbrev pub AreSeen : List String → List Bit → Type 0
AreSeen seen bs = All (λ b. contains b.port seen ≡ true) bs

pub here-unseen :
    (v : Vector) (x r : String) (seen : List String) (bs : List Bit)
    → AreSeen seen bs
    → contains x seen ≡ false
    → here v x r bs ≡ []
here-unseen v x r seen [] h k = refl
here-unseen v x r seen (b ∷ bs) h k =
    let later = here-unseen v x r seen bs h.1 k in
    elim (Bool-cases (vector_eq b.vec v)) [
      | inr q ↦ rw q later
      | inl q ↦ elim (Bool-cases (str_eq b.port x)) [
        | inr j ↦ rw (q, j) later
        | inl j ↦
            let same = subst (λ y. contains y seen ≡ true) ((eq_iff b.port x).0 j) h.0 in
            absurd (cc (same, k))
      ]
    ]

pub AreSeen-more :
    (x : String) (seen : List String) (bs : List Bit) → AreSeen seen bs → AreSeen (x ∷ seen) bs
AreSeen-more x seen [] h = tt
AreSeen-more x seen (b ∷ bs) h = (
  elim (Bool-cases (str_eq b.port x)) [ inl q ↦ rw q refl | inr q ↦ rw (q, h.0) refl ],
  AreSeen-more x seen bs h.1,
)

AreSeen-run :
    (v : Vector) (k : ℕ) (p : PortSpec) (role : String) (i left : ℕ) (seen : List String)
    → AreSeen (p.name ∷ seen) (bits_run v k p role i left)
AreSeen-run v k p role i zero seen = tt
AreSeen-run v k p role i (suc left) seen =
    (rw ((eq_iff p.name p.name).1 refl) refl, AreSeen-run v (suc k) p role (suc i) left seen)

-- What a port adds: three runs, or one.
abbrev inout_runs : PortSpec → ℕ → ℕ → ℕ → List Bit
inout_runs p i j k =
    bits_run Vector.in_vec i p "drive_en" 0 p.width
    ++ bits_run Vector.in_vec j p "drive_val" 0 p.width
    ++ bits_run Vector.out_vec k p "obs" 0 p.width

abbrev pub added : PortSpec → Layout → List Bit
added p l =
    let en = add_bits Vector.in_vec p "drive_en" l in
    if str_eq p.direction "inout"
    then inout_runs p (l.n Vector.in_vec) (en.n Vector.in_vec)
        ((add_bits Vector.in_vec p "drive_val" en).n Vector.out_vec)
    else bits_run (vector_of p) (l.n (vector_of p)) p "" 0 p.width

here-inout :
    (w : Vector) (x r : String) (p : PortSpec) (i j k : ℕ)
    → here w x r (inout_runs p i j k)
      ≡ here w x r (bits_run Vector.in_vec i p "drive_en" 0 p.width)
        ++ here w x r (bits_run Vector.in_vec j p "drive_val" 0 p.width)
        ++ here w x r (bits_run Vector.out_vec k p "obs" 0 p.width)
here-inout w x r p i j k =
    let en = bits_run Vector.in_vec i p "drive_en" 0 p.width in
    let val = bits_run Vector.in_vec j p "drive_val" 0 p.width in
    let obs = bits_run Vector.out_vec k p "obs" 0 p.width in
    here-append w x r (en ++ val) obs ∙ ap (λ bs. bs ++ here w x r obs) (here-append w x r en val)

pub add_port-bits : (p : PortSpec) (l : Layout) → (add_port p l).bits ≡ l.bits ++ added p l
add_port-bits p l = elim (Bool-cases (str_eq p.direction "inout")) [
  | inr q ↦ rw q (add_from-bits (vector_of p) p "" 0 p.width l)
  | inl q ↦
      let en = add_bits Vector.in_vec p "drive_en" l in
      let val = add_bits Vector.in_vec p "drive_val" en in
      let en_run = bits_run Vector.in_vec (l.n Vector.in_vec) p "drive_en" 0 p.width in
      let val_run = bits_run Vector.in_vec (en.n Vector.in_vec) p "drive_val" 0 p.width in
      let obs_run = bits_run Vector.out_vec (val.n Vector.out_vec) p "obs" 0 p.width in
      rw q (
        add_from-bits Vector.out_vec p "obs" 0 p.width val
        ∙ ap (λ bs. bs ++ obs_run)
            (add_from-bits Vector.in_vec p "drive_val" 0 p.width en
              ∙ ap (λ bs. bs ++ val_run) (add_from-bits Vector.in_vec p "drive_en" 0 p.width l)
              ∙ append_assoc l.bits en_run val_run)
        ∙ append_assoc l.bits (en_run ++ val_run) obs_run)
]

pub AreSeen-added :
    (p : PortSpec) (l : Layout) (seen : List String) → AreSeen (p.name ∷ seen) (added p l)
AreSeen-added p l seen =
    let P = λ (b : Bit). contains b.port (p.name ∷ seen) ≡ true in
    elim (Bool-cases (str_eq p.direction "inout")) [
      | inr q ↦ rw q (AreSeen-run (vector_of p) (l.n (vector_of p)) p "" 0 p.width seen)
      | inl q ↦ rw q (
          All-append P _ _
            (All-append P _ _ (AreSeen-run Vector.in_vec _ p "drive_en" 0 p.width seen)
              (AreSeen-run Vector.in_vec _ p "drive_val" 0 p.width seen))
            (AreSeen-run Vector.out_vec _ p "obs" 0 p.width seen))
    ]

-- The three runs of a bidirectional port, from bits `i` and `j` of `in_vec` and bit `k` of `out_vec`.
abbrev pub WiredInOut : List Bit → PortSpec → ℕ → ℕ → ℕ → Type 0
WiredInOut bs p i j k =
    (here Vector.in_vec p.name "drive_en" bs ≡ bits_run Vector.in_vec i p "drive_en" 0 p.width)
    × (here Vector.in_vec p.name "drive_val" bs ≡ bits_run Vector.in_vec j p "drive_val" 0 p.width)
    × (here Vector.out_vec p.name "obs" bs ≡ bits_run Vector.out_vec k p "obs" 0 p.width)

pub added-other :
    (w : Vector) (x r : String) (p : PortSpec) (l : Layout)
    → str_eq p.name x ≡ false
    → here w x r (added p l) ≡ []
added-other w x r p l h =
    let miss = λ (v : Vector) (k : ℕ) (role : String).
      here-other w x r v k p role 0 p.width (rw h (ground arith)) in
    elim (Bool-cases (str_eq p.direction "inout")) [
      | inr q ↦ rw q (miss (vector_of p) (l.n (vector_of p)) "")
      | inl q ↦ rw q (
          here-inout w x r p _ _ _
          ∙ rw
              (
                miss Vector.in_vec _ "drive_en",
                miss Vector.in_vec _ "drive_val",
                miss Vector.out_vec _ "obs",
              )
              refl)
    ]

pub added-plain :
    (p : PortSpec) (l : Layout)
    → str_eq p.direction "inout" ≡ false
    → here (vector_of p) p.name "" (added p l)
      ≡ bits_run (vector_of p) (l.n (vector_of p)) p "" 0 p.width
added-plain p l q = rw q (here-run (vector_of p) (l.n (vector_of p)) p "" 0 p.width)

inout_runs-Wired : (p : PortSpec) (i j k : ℕ) → WiredInOut (inout_runs p i j k) p i j k
inout_runs-Wired p i j k =
    let same = (eq_iff p.name p.name).1 refl in
    let other =
      λ (w : Vector) (r : String) (v : Vector) (n : ℕ) (role : String)
          (h : is_other w p.name r v p role ≡ true).
        here-other w p.name r v n p role 0 p.width h in
    (
      here-inout Vector.in_vec p.name "drive_en" p i j k
          ∙ rw
              (
                here-run Vector.in_vec i p "drive_en" 0 p.width,
                other Vector.in_vec "drive_en" Vector.in_vec j "drive_val" (rw same refl),
                other Vector.in_vec "drive_en" Vector.out_vec k "obs" refl,
              )
              (append-nil _ ∙ append-nil _),
      here-inout Vector.in_vec p.name "drive_val" p i j k
          ∙ rw
              (
                here-run Vector.in_vec j p "drive_val" 0 p.width,
                other Vector.in_vec "drive_val" Vector.in_vec i "drive_en" (rw same refl),
                other Vector.in_vec "drive_val" Vector.out_vec k "obs" refl,
              )
              (append-nil _),
      here-inout Vector.out_vec p.name "obs" p i j k
          ∙ rw
              (
                here-run Vector.out_vec k p "obs" 0 p.width,
                other Vector.out_vec "obs" Vector.in_vec i "drive_en" refl,
                other Vector.out_vec "obs" Vector.in_vec j "drive_val" refl,
              )
              refl,
    )

pub added-inout :
    (p : PortSpec) (l : Layout)
    → str_eq p.direction "inout" ≡ true
    → WiredInOut
        (added p l)
        p
        (l.n Vector.in_vec)
        (l.n Vector.in_vec + p.width)
        (l.n Vector.out_vec)
added-inout p l q =
    let en = add_bits Vector.in_vec p "drive_en" l in
    let val = add_bits Vector.in_vec p "drive_val" en in
    let second = add_from-count Vector.in_vec Vector.in_vec p "drive_en" 0 p.width l in
    let third =
      add_from-count Vector.in_vec Vector.out_vec p "drive_val" 0 p.width en
      ∙ add_from-count Vector.in_vec Vector.out_vec p "drive_en" 0 p.width l in
    rw q (
      subst
        (λ j.
          WiredInOut (inout_runs p (l.n Vector.in_vec) (en.n Vector.in_vec) (val.n Vector.out_vec))
            p (l.n Vector.in_vec) j (l.n Vector.out_vec))
        second
        (subst
          (λ k.
            WiredInOut
              (inout_runs p (l.n Vector.in_vec) (en.n Vector.in_vec) (val.n Vector.out_vec)) p
              (l.n Vector.in_vec) (en.n Vector.in_vec) k)
          third
          (inout_runs-Wired p (l.n Vector.in_vec) (en.n Vector.in_vec) (val.n Vector.out_vec))))
