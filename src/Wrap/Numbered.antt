-- ===== src/Wrap/Numbered.antt =====
-- The map that `build_map` makes passes `_check_map`.
use xilinx_unittests.Prelude.{
  ℕ, zero, suc, ◌+◌, ◌==◌, ==_iff, String, Bool, true, str_eq, ◌≡◌, refl, sym, ap, subst, ◌∙◌, inl,
  inr, Bool-cases, arith, List, [], ◌∷◌, ◌++◌, length, length-append, all, ok, check-ok, bind-ok,
  ok-injective,
}
use mathlib.Core.List.{append-nil}
use xilinx_unittests.Dut.{Vector, vector_eq, Bit, DutMap, of_bits, is_role, counts_from, check_map}
use xilinx_unittests.Wrap.{
  PortSpec, DutSpec, Layout, bit_of, append_bit, add_from, vector_of, add_port, check_port,
  build_from, empty_layout, map_of, build_map,
}

-- In every vector the bits are numbered in order, as many as are counted.
record IsNumbered (l : Layout) : Type 0 where
  in_order : (v : Vector) → counts_from 0 (of_bits v l.bits) ≡ true
  counted : (v : Vector) → length (of_bits v l.bits) ≡ l.n v
  roles : all (λ b. is_role b.role) l.bits ≡ true

counts_from-append :
    (k : ℕ) (bs : List Bit) (b : Bit)
    → counts_from k bs ≡ true
    → b.bit ≡ k + length bs
    → counts_from k (bs ++ b ∷ []) ≡ true
unfolding counts_from
counts_from-append k [] b h e = ground arith
counts_from-append k (a ∷ bs) b h e = elim (Bool-cases (a.bit == k)) [
  | inl q ↦ rw q (counts_from-append (suc k) bs b (rw q at h) (omega arith))
  | inr q ↦ cc (rw q at h)
]

pub of_bits-append :
    (v : Vector) (cs bs : List Bit) → of_bits v (cs ++ bs) ≡ of_bits v cs ++ of_bits v bs
of_bits-append v [] bs = refl
of_bits-append v (a ∷ cs) bs = elim (Bool-cases (vector_eq a.vec v)) [
  | inl q ↦ rw q (ap (◌∷◌ a) (of_bits-append v cs bs))
  | inr q ↦ rw q (of_bits-append v cs bs)
]

all-append :
    (p : Bit → Bool) (cs : List Bit) (b : Bit)
    → all p cs ≡ true
    → p b ≡ true
    → all p (cs ++ b ∷ []) ≡ true
all-append p [] b h k = rw k refl
all-append p (a ∷ cs) b h k = elim (Bool-cases (p a)) [
  | inl q ↦ rw q (all-append p cs b (rw q at h) k)
  | inr q ↦ cc (rw q at h)
]

vector_eq→≡ : (v w : Vector) → vector_eq v w ≡ true → v ≡ w
vector_eq→≡ Vector.clk_vec Vector.clk_vec h = refl
vector_eq→≡ Vector.clk_vec Vector.in_vec h = cc h
vector_eq→≡ Vector.clk_vec Vector.out_vec h = cc h
vector_eq→≡ Vector.in_vec Vector.clk_vec h = cc h
vector_eq→≡ Vector.in_vec Vector.in_vec h = refl
vector_eq→≡ Vector.in_vec Vector.out_vec h = cc h
vector_eq→≡ Vector.out_vec Vector.clk_vec h = cc h
vector_eq→≡ Vector.out_vec Vector.in_vec h = cc h
vector_eq→≡ Vector.out_vec Vector.out_vec h = refl

append_bit-IsNumbered :
    (v : Vector) (p : PortSpec) (role : String) (i : ℕ) (l : Layout)
    → is_role role ≡ true
    → IsNumbered l
    → IsNumbered (append_bit v p role i l)
append_bit-IsNumbered v p role i l r h = record {
  in_order = λ w. elim (Bool-cases (vector_eq v w)) [
    | inl q ↦
        rw (of_bits-append w l.bits (bit_of v (l.n v) p i role ∷ []), q)
          (counts_from-append 0 (of_bits w l.bits) (bit_of v (l.n v) p i role) (h.in_order w)
            (ap l.n (vector_eq→≡ v w q) ∙ sym (h.counted w) ∙ omega arith))
    | inr q ↦
        rw
          (
            of_bits-append w l.bits (bit_of v (l.n v) p i role ∷ []),
            q,
            append-nil (of_bits w l.bits),
          )
          (h.in_order w)
  ];
  counted = λ w. elim (Bool-cases (vector_eq v w)) [
    | inl q ↦
        rw
          (
            of_bits-append w l.bits (bit_of v (l.n v) p i role ∷ []),
            q,
            length-append (of_bits w l.bits) (bit_of v (l.n v) p i role ∷ []),
          )
          (omega (arith, h.counted w))
    | inr q ↦
        rw
          (
            of_bits-append w l.bits (bit_of v (l.n v) p i role ∷ []),
            q,
            append-nil (of_bits w l.bits),
          )
          (h.counted w)
  ];
  roles = all-append (λ b. is_role b.role) l.bits (bit_of v (l.n v) p i role) h.roles r;
}

add_from-IsNumbered :
    (v : Vector) (p : PortSpec) (role : String) (i left : ℕ) (l : Layout)
    → is_role role ≡ true
    → IsNumbered l
    → IsNumbered (add_from v p role i left l)
unfolding add_from
add_from-IsNumbered v p role i zero l r h = h
add_from-IsNumbered v p role i (suc left) l r h =
    add_from-IsNumbered v p role (suc i) left (append_bit v p role i l) r
      (append_bit-IsNumbered v p role i l r h)

add_port-IsNumbered : (p : PortSpec) (l : Layout) → IsNumbered l → IsNumbered (add_port p l)
add_port-IsNumbered p l h =
    let add =
      λ (v : Vector) (role : String) (k : Layout) (r : is_role role ≡ true) (g : IsNumbered k).
        add_from-IsNumbered v p role 0 p.width k r g in
    elim (Bool-cases (str_eq p.direction "inout")) [
      | inl q ↦ rw q (
          add Vector.out_vec "obs" _ refl
            (add Vector.in_vec "drive_val" _ refl (add Vector.in_vec "drive_en" l refl h)))
      | inr q ↦ rw q (add (vector_of p) "" l refl h)
    ]

build_from-IsNumbered :
    (raw : Bool) (ps : List PortSpec) (seen : List String) (l k : Layout)
    → build_from raw ps seen l ≡ ok k
    → IsNumbered l
    → IsNumbered k
unfolding build_from
build_from-IsNumbered raw [] seen l k h n = subst IsNumbered (ok-injective l k h) n
build_from-IsNumbered raw (p ∷ ps) seen l k h n =
    let (checked, rest) = check-ok (check_port raw p seen) _ h in
    build_from-IsNumbered raw ps (p.name ∷ seen) (add_port p l) k rest (add_port-IsNumbered p l n)

map_of-checked : (spec : DutSpec) (l : Layout) → IsNumbered l → check_map (map_of spec l) ≡ ok tt
unfolding check_map
map_of-checked spec l h =
    let full = λ (v : Vector). (==_iff (length (of_bits v l.bits)) (l.n v)).1 (h.counted v) in
    rw
      (
        h.roles,
        full Vector.clk_vec,
        h.in_order Vector.clk_vec,
        full Vector.in_vec,
        h.in_order Vector.in_vec,
        full Vector.out_vec,
        h.in_order Vector.out_vec,
      )
      refl

-- The map that is made for a wrapper is one that may be read back: its roles are known, and the bits of each
-- vector are as many as it counts and numbered from 0 in order.
pub build_map-checked : (spec : DutSpec) (m : DutMap) → build_map spec ≡ ok m → check_map m ≡ ok tt
unfolding build_map counts_from
build_map-checked spec m h =
    let (l, hl, hm) = bind-ok (build_from spec.raw_clock_out spec.ports [] empty_layout) _ h in
    let empty : IsNumbered empty_layout = record {
      in_order = λ v. refl;
      counted = λ v. refl;
      roles = refl;
    } in
    subst (λ x. check_map x ≡ ok tt) (ok-injective (map_of spec l) m hm)
      (map_of-checked spec l
        (build_from-IsNumbered spec.raw_clock_out spec.ports [] empty_layout l hl empty))
