-- ===== src/Wrap/Counted.antt =====
-- How many bits of each vector a port takes.
use xilinx_unittests.Prelude.{
  ℕ, zero, suc, ◌+◌, String, Bool, true, false, if◌then◌else◌, str_eq, ◌≡◌, refl, ◌∙◌, inl, inr,
  Bool-cases, arith,
}
use xilinx_unittests.Dut.{Vector, vector_eq}
use xilinx_unittests.Wrap.{PortSpec, Layout, append_bit, add_from, add_bits, vector_of, add_port}

-- How many bits a port takes of a vector: a bidirectional one of `in_vec` twice its width.
abbrev pub takes : Vector → PortSpec → ℕ
takes v p =
    if str_eq p.direction "inout"
    then elim v [
      | Vector.clk_vec ↦ 0
      | Vector.in_vec ↦ p.width + p.width
      | Vector.out_vec ↦ p.width
    ]
    else if vector_eq (vector_of p) v
    then p.width
    else 0

pub add_from-count :
    (v w : Vector) (p : PortSpec) (role : String) (i left : ℕ) (l : Layout)
    → (add_from v p role i left l).n w ≡ (if vector_eq v w then l.n w + left else l.n w)
unfolding add_from
add_from-count v w p role i zero l = ground arith
add_from-count v w p role i (suc left) l =
    ground (arith, add_from-count v w p role (suc i) left (append_bit v p role i l))

pub add_port-count :
    (p : PortSpec) (l : Layout) (w : Vector) → (add_port p l).n w ≡ l.n w + takes w p
add_port-count p l w = elim (Bool-cases (str_eq p.direction "inout")) [
  | inr q ↦
      rw q (add_from-count (vector_of p) w p "" 0 p.width l ∙ apart (vector_eq (vector_of p) w))
  | inl q ↦
      let en = add_bits Vector.in_vec p "drive_en" l in
      let val = add_bits Vector.in_vec p "drive_val" en in
      let one = λ (w : Vector). add_from-count Vector.in_vec w p "drive_en" 0 p.width l in
      let two = λ (w : Vector). add_from-count Vector.in_vec w p "drive_val" 0 p.width en in
      let three = λ (w : Vector). add_from-count Vector.out_vec w p "obs" 0 p.width val in
      rw q (of_each w (one w) (two w) (three w))
]
  where
    apart : (b : Bool) → (if b then l.n w + p.width else l.n w) ≡ l.n w + (if b then p.width else 0)
    apart true = refl
    apart false = omega arith

    of_each :
        (w : Vector) {a b c : ℕ}
        → a ≡ (if vector_eq Vector.in_vec w then l.n w + p.width else l.n w)
        → b ≡ (if vector_eq Vector.in_vec w then a + p.width else a)
        → c ≡ (if vector_eq Vector.out_vec w then b + p.width else b)
        → c
          ≡ l.n w + elim w [
            | Vector.clk_vec ↦ 0
            | Vector.in_vec ↦ p.width + p.width
            | Vector.out_vec ↦ p.width
          ]
    of_each Vector.clk_vec x y z = omega (arith, x, y, z)
    of_each Vector.in_vec x y z = omega (arith, x, y, z)
    of_each Vector.out_vec x y z = omega (arith, x, y, z)
