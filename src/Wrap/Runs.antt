-- ===== src/Wrap/Runs.antt =====
-- The runs of bits that `add` appends for a port, and what a look-up of a port finds in one.
use xilinx_unittests.Prelude.{
  ℕ, zero, suc, String, Bool, true, not, ◌&&◌, str_eq, eq_iff, ◌≡◌, refl, sym, ap, ◌∙◌, inl, inr,
  Bool-cases, List, [], ◌∷◌, ◌++◌,
}
use mathlib.Core.List.{append-nil, append_assoc}
use xilinx_unittests.Dut.{Vector, vector_eq, Bit, of_bits, with_port}
use xilinx_unittests.Wrap.{PortSpec, Layout, bit_of, append_bit, add_from}
use xilinx_unittests.Wrap.Numbered.{of_bits-append}

-- The bits that `add` appends, from bit `k` of the vector and bit `i` of the port.
abbrev pub bits_run : Vector → ℕ → PortSpec → String → ℕ → ℕ → List Bit
bits_run v k p role i zero = []
bits_run v k p role i (suc left) = bit_of v k p i role ∷ bits_run v (suc k) p role (suc i) left

pub vector_eq_refl : (v : Vector) → vector_eq v v ≡ true
vector_eq_refl Vector.clk_vec = refl
vector_eq_refl Vector.in_vec = refl
vector_eq_refl Vector.out_vec = refl

pub add_from-bits :
    (v : Vector) (p : PortSpec) (role : String) (i left : ℕ) (l : Layout)
    → (add_from v p role i left l).bits ≡ l.bits ++ bits_run v (l.n v) p role i left
unfolding add_from
add_from-bits v p role i zero l = sym (append-nil l.bits)
add_from-bits v p role i (suc left) l =
    add_from-bits v p role (suc i) left (append_bit v p role i l)
    ∙ rw (vector_eq_refl v) (
        append_assoc l.bits (bit_of v (l.n v) p i role ∷ [])
          (bits_run v (suc (l.n v)) p role (suc i) left))

-- The bits of a port with a role in a vector.
abbrev pub here : Vector → String → String → List Bit → List Bit
here v x r bs = with_port x r (of_bits v bs)

with_port-append :
    (x r : String) (cs bs : List Bit)
    → with_port x r (cs ++ bs) ≡ with_port x r cs ++ with_port x r bs
with_port-append x r [] bs = refl
with_port-append x r (c ∷ cs) bs = elim (Bool-cases (str_eq c.port x && str_eq c.role r)) [
  | inl q ↦ rw q (ap (◌∷◌ c) (with_port-append x r cs bs))
  | inr q ↦ rw q (with_port-append x r cs bs)
]

pub here-append :
    (v : Vector) (x r : String) (cs bs : List Bit)
    → here v x r (cs ++ bs) ≡ here v x r cs ++ here v x r bs
here-append v x r cs bs =
    ap (with_port x r) (of_bits-append v cs bs) ∙ with_port-append x r (of_bits v cs) (of_bits v bs)

pub here-run :
    (v : Vector) (k : ℕ) (p : PortSpec) (role : String) (i left : ℕ)
    → here v p.name role (bits_run v k p role i left) ≡ bits_run v k p role i left
here-run v k p role i zero = refl
here-run v k p role i (suc left) =
    rw (vector_eq_refl v, (eq_iff p.name p.name).1 refl, (eq_iff role role).1 refl)
      (ap (◌∷◌ (bit_of v k p i role)) (here-run v (suc k) p role (suc i) left))

-- A run of another port, another role or another vector has none of them.
abbrev pub is_other : Vector → String → String → Vector → PortSpec → String → Bool
is_other w x r v p role = not (vector_eq v w && (str_eq p.name x && str_eq role r))

pub here-other :
    (w : Vector) (x r : String) (v : Vector) (k : ℕ) (p : PortSpec) (role : String) (i left : ℕ)
    → is_other w x r v p role ≡ true
    → here w x r (bits_run v k p role i left) ≡ []
here-other w x r v k p role i zero h = refl
here-other w x r v k p role i (suc left) h =
    let later = here-other w x r v (suc k) p role (suc i) left h in
    elim (Bool-cases (vector_eq v w)) [
      | inr q ↦ rw q later
      | inl q ↦ elim (Bool-cases (str_eq p.name x && str_eq role r)) [
        | inl j ↦ cc (rw (q, j) at h)
        | inr j ↦ rw (q, j) later
      ]
    ]
