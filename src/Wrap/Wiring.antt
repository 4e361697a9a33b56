-- ===== src/Wrap/Wiring.antt =====
-- Where `build_map` puts the bits of a port: one after the other, and nothing else there.
use xilinx_unittests.Prelude.{
  ℕ, ◌+◌, ◌==◌, ◌≤◌, String, Bool, true, false, not, str_eq, eq_iff, ◌≡◌, refl, sym, ap, subst, ◌∙◌,
  inl, inr, Bool-cases, arith, List, [], ◌∷◌, All-append, ok, refuse, refuse-ok, check-ok, bind-ok,
  ok-injective,
}
use mathlib.Core.List.{append-nil}
use mathlib.Core.Path.{fun_ext}
use xilinx_unittests.Dut.{Vector, Bit, DutMap, contains}
use xilinx_unittests.Wrap.{
  PortSpec, DutSpec, Layout, vector_of, add_port, check_port, directions, classes_for, build_from,
  empty_layout, map_of, build_map,
}
use xilinx_unittests.Wrap.Runs.{bits_run, here, here-append}
use xilinx_unittests.Wrap.Counted.{takes, add_port-count}
use xilinx_unittests.Wrap.Added.{
  AreSeen, here-unseen, AreSeen-more, added, add_port-bits, AreSeen-added, WiredInOut, added-other,
  added-plain, added-inout,
}

-- What the bits of a port are, where `bs` are those of the map and `n` of each vector are taken before it: it
-- has one at least, and in each of its vectors they follow each other, from bit 0 of the port and the first
-- bit that is not taken on.
pub record IsWired (bs : List Bit) (n : Vector → ℕ) (p : PortSpec) : Type 0 where
  pub wide : 1 ≤ p.width
  pub plain :
      str_eq p.direction "inout" ≡ false
      → here (vector_of p) p.name "" bs ≡ bits_run (vector_of p) (n (vector_of p)) p "" 0 p.width
  pub inout :
      str_eq p.direction "inout" ≡ true
      → WiredInOut bs p (n Vector.in_vec) (n Vector.in_vec + p.width) (n Vector.out_vec)

-- The bits that are taken after a port.
abbrev pub after : PortSpec → (Vector → ℕ) → Vector → ℕ
after p n v = n v + takes v p

abbrev pub AreWired : List Bit → (Vector → ℕ) → List PortSpec → Type 0
AreWired bs n [] = Unit
AreWired bs n (p ∷ ps) = IsWired bs n p × AreWired bs (after p n) ps

-- One look-up of the bits of a port that were not seen before.
add_port-here :
    (v : Vector) (r : String) (p : PortSpec) (seen : List String) (l : Layout)
    → AreSeen seen l.bits
    → contains p.name seen ≡ false
    → here v p.name r (add_port p l).bits ≡ here v p.name r (added p l)
add_port-here v r p seen l h k =
    ap (here v p.name r) (add_port-bits p l)
    ∙ here-append v p.name r l.bits (added p l)
    ∙ rw (here-unseen v p.name r seen l.bits h k) refl

unseen_name :
    (x name : String) (seen : List String)
    → contains x seen ≡ true
    → contains name seen ≡ false
    → str_eq name x ≡ false
unseen_name x name seen h k = elim (Bool-cases (str_eq name x)) [
  | inr q ↦ q
  | inl q ↦ absurd (cc (subst (λ y. contains y seen ≡ false) ((eq_iff name x).0 q) k, h))
]

-- `_check_port`, inverted.
check_port-ok :
    (raw : Bool) (p : PortSpec) (seen : List String)
    → check_port raw p seen ≡ ok tt
    → (contains p.name seen ≡ false) × (1 ≤ p.width)
unfolding check_port
check_port-ok raw p seen h =
    let (fresh, h1) = check-ok (refuse (contains p.name seen) _) _ h in
    let (direction, h2) = check-ok (refuse (not (contains p.direction directions)) _) _ h1 in
    let (cls, h3) = check-ok (refuse (not (contains p.cls (classes_for p.direction))) _) _ h2 in
    let (width, h4) = check-ok (refuse (p.width == 0) _) _ h3 in
    let wide = refuse-ok (p.width == 0) _ width in
    (refuse-ok (contains p.name seen) _ fresh, ground arith)

-- Later ports leave the bits of an earlier one as they are.
build_from-keeps :
    (raw : Bool) (v : Vector) (x r : String) (ps : List PortSpec) (seen : List String)
    (l k : Layout)
    → contains x seen ≡ true
    → build_from raw ps seen l ≡ ok k
    → here v x r k.bits ≡ here v x r l.bits
unfolding build_from
build_from-keeps raw v x r [] seen l k m h = sym (ap (λ y. here v x r y.bits) (ok-injective l k h))
build_from-keeps raw v x r (p ∷ ps) seen l k m h =
    let (checked, rest) = check-ok (check_port raw p seen) _ h in
    let other = unseen_name x p.name seen m (check_port-ok raw p seen checked).0 in
    let known : contains x (p.name ∷ seen) ≡ true = elim (Bool-cases (str_eq x p.name)) [
      | inl q ↦ rw q refl
      | inr q ↦ rw (q, m) refl
    ] in
    build_from-keeps raw v x r ps (p.name ∷ seen) (add_port p l) k known rest
    ∙ ap (here v x r) (add_port-bits p l)
    ∙ here-append v x r l.bits (added p l)
    ∙ rw (added-other v x r p l other) (append-nil (here v x r l.bits))

build_from-IsWired :
    (raw : Bool) (ps : List PortSpec) (seen : List String) (l k : Layout)
    → AreSeen seen l.bits
    → build_from raw ps seen l ≡ ok k
    → AreWired k.bits l.n ps
unfolding build_from
build_from-IsWired raw [] seen l k s h = tt
build_from-IsWired raw (p ∷ ps) seen l k s h =
    let (checked, rest) = check-ok (check_port raw p seen) _ h in
    let (fresh, wide) = check_port-ok raw p seen checked in
    let known : contains p.name (p.name ∷ seen) ≡ true = rw ((eq_iff p.name p.name).1 refl) refl in
    let kept = λ (v : Vector) (r : String).
      build_from-keeps raw v p.name r ps (p.name ∷ seen) (add_port p l) k known rest
      ∙ add_port-here v r p seen l s fresh in
    let seen_now = subst (AreSeen (p.name ∷ seen)) (sym (add_port-bits p l)) (
      All-append (λ b. contains b.port (p.name ∷ seen) ≡ true) l.bits (added p l)
        (AreSeen-more p.name seen l.bits s) (AreSeen-added p l seen)) in
    (
      record {
        wide = wide;
        plain = λ q. kept (vector_of p) "" ∙ added-plain p l q;
        inout = λ q.
            let (en, val, obs) = added-inout p l q in
            (
              kept Vector.in_vec "drive_en" ∙ en,
              kept Vector.in_vec "drive_val" ∙ val,
              kept Vector.out_vec "obs" ∙ obs,
            );
      },
      subst (λ n. AreWired k.bits n ps) (fun_ext (add_port-count p l))
          (build_from-IsWired raw ps (p.name ∷ seen) (add_port p l) k seen_now rest),
    )

-- Of the map that is made for a wrapper, the bits of every port are one after the other in its vector, those
-- of a bidirectional port in three runs, its first bit first, after those of the ports before it; and there
-- are as many as the port is wide, one at least.
pub build_map-IsWired :
    (spec : DutSpec) (m : DutMap) → build_map spec ≡ ok m → AreWired m.bits (λ v. 0) spec.ports
unfolding build_map
build_map-IsWired spec m h =
    let (l, hl, hm) = bind-ok (build_from spec.raw_clock_out spec.ports [] empty_layout) _ h in
    subst (λ x. AreWired x.bits (λ v. 0) spec.ports) (ok-injective (map_of spec l) m hm)
      (build_from-IsWired spec.raw_clock_out spec.ports [] empty_layout l tt hl)
