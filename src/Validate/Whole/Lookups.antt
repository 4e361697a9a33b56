-- ===== src/Validate/Whole/Lookups.antt =====
-- The bits, classes and clocks that the rules of `validate` look up are there.
use xilinx_unittests.Prelude.{
  ℕ, zero, suc, ◌+◌, ◌-◌, ◌≤◌, ◌<◌, Bool, true, false, not, ◌==◌, ==_iff, leb, ◌≡◌, inl, inr, refl,
  arith, Bool-cases, Option, none, some, List, [], ◌∷◌, length, any, all, All, String, ok, check-ok,
  refuse, refuse-ok, Gives, Gives-bind,
}
use xilinx_unittests.Xvec.{Name, Op, Clock, Event, name_eq}
use xilinx_unittests.Dut.{
  Bit, DutMap, Vector, of, WrapError, is_role, counts_from, check_vector, check_map,
}
use xilinx_unittests.Validate.Groups.{class_at, classes_from, classes_of, lists_of, all_lists}

abbrev pub Any : {A : Type 0} → A → Type 0
Any a = Unit

-- Every position below `n` has a class.
abbrev pub Covers : List Bit → ℕ → Type 0
Covers ins n = (k : ℕ) → k < n → (c : String) × (class_at ins k ≡ some c)

class_at-some :
    (bs : List Bit) (j k : ℕ)
    → counts_from j bs ≡ true
    → j ≤ k
    → k < j + length bs
    → (c : String) × (class_at bs k ≡ some c)
unfolding counts_from
class_at-some [] j k h le lt = absurd (omega arith)
class_at-some (b ∷ bs) j k h le lt = elim (Bool-cases (b.bit == k)) [
  | inl e ↦ here (class_at bs k) refl e
  | inr e ↦
      let later = class_at-some bs (suc j) k (ground arith) (ground arith) (omega arith) in
      (later.0, rw later.1 refl)
]
  where
    here :
        (o : Option String)
        → class_at bs k ≡ o
        → (b.bit == k) ≡ true
        → (c : String) × (class_at (b ∷ bs) k ≡ some c)
    here (some c) q e = (c, rw q refl)
    here none q e = (b.cls, rw (q, e) refl)

check_vector-ok :
    (m : DutMap) (v : Vector) (n : ℕ)
    → check_vector m v n ≡ ok tt
    → (length (of m v) ≡ n) × (counts_from 0 (of m v) ≡ true)
check_vector-ok m v n h =
    let (count, order) = check-ok (refuse (not (length (of m v) == n)) WrapError.wrong_count) _ h in
    (
      (==_iff (length (of m v)) n).0 (is_true _ (refuse-ok _ WrapError.wrong_count count)),
      is_true _ (refuse-ok _ WrapError.wrong_order order),
    )
  where
    is_true : (b : Bool) → not b ≡ false → b ≡ true
    is_true true h = refl
    is_true false h = cc

pub check_map-Covers : (m : DutMap) → check_map m ≡ ok tt → Covers (of m Vector.in_vec) m.nin
unfolding check_map
check_map-Covers m h k lt =
    let (roles, h1) =
      check-ok (refuse (not (all (λ b. is_role b.role) m.bits)) WrapError.bad_role) _ h in
    let (clocks, h2) = check-ok (check_vector m Vector.clk_vec m.nclk) _ h1 in
    let (ins, outs) = check-ok (check_vector m Vector.in_vec m.nin) _ h2 in
    let (count, order) = check_vector-ok m Vector.in_vec m.nin ins in
    class_at-some (of m Vector.in_vec) 0 k order (omega arith) (omega (arith, count))

classes_from-Gives :
    (ins : List Bit) (nin k n : ℕ) → Covers ins nin → k + n ≤ nin → Gives Any (classes_from ins k n)
unfolding classes_from
classes_from-Gives ins nin k zero c le = tt
classes_from-Gives ins nin k (suc n) c le =
    let (x, found) = c k (omega arith) in
    rw found (
      Gives-bind Any Any (classes_from ins (suc k) n) _
        (classes_from-Gives ins nin (suc k) n c (omega arith)) (λ cs u. tt))

-- A clock of that name is declared.
abbrev pub Declared : List Clock → Name → Type 0
Declared cs n = any (λ c. name_eq c.name n) cs ≡ true

-- What the rules look up for an event is there.
abbrev pub IsKnownAs : ℕ → List Clock → Event → Op → Type 0
IsKnownAs nin cs e Op.set = e.msb < nin
IsKnownAs nin cs e Op.edge = Declared cs e.target
IsKnownAs nin cs e _ = Unit

abbrev pub IsKnown : ℕ → List Clock → Event → Type 0
IsKnown nin cs e = IsKnownAs nin cs e e.op

pub classes_of-Gives :
    (ins : List Bit) (nin : ℕ) (e : Event)
    → Covers ins nin
    → e.msb < nin
    → Gives Any (classes_of ins e)
unfolding classes_of
classes_of-Gives ins nin e c lt = elim (Bool-cases (leb e.lsb e.msb)) [
  | inl q ↦ classes_from-Gives ins nin e.lsb (e.msb + 1 - e.lsb) c (ground arith)
  | inr q ↦ let z : e.msb + 1 - e.lsb ≡ 0 = ground arith in rw z (unfold classes_from in tt)
]

lists_of-Gives :
    (ins : List Bit) (nin : ℕ) (cs : List Clock) (t : ℕ) (several : Bool) (e : Event) (op : Op)
    → Covers ins nin
    → IsKnownAs nin cs e op
    → Gives Any (lists_of ins t several e op)
unfolding lists_of
lists_of-Gives ins nin cs t several e Op.set c k =
    Gives-bind Any Any (classes_of ins e) _ (classes_of-Gives ins nin e c k) (λ ds u. tt)
lists_of-Gives ins nin cs t several e Op.edge c k = tt
lists_of-Gives ins nin cs t several e Op.glbl c k = tt
lists_of-Gives ins nin cs t several e _ c k = tt

pub all_lists-Gives :
    (ins : List Bit) (nin : ℕ) (cs : List Clock) (t : ℕ) (several : Bool) (es : List Event)
    → Covers ins nin
    → All (IsKnown nin cs) es
    → Gives Any (all_lists ins t several es)
unfolding all_lists
all_lists-Gives ins nin cs t several [] c k = tt
all_lists-Gives ins nin cs t several (e ∷ es) c k =
    Gives-bind Any Any (lists_of ins t several e e.op) _
      (lists_of-Gives ins nin cs t several e e.op c k.0)
      (λ a u.
        Gives-bind Any Any (all_lists ins t several es) _
          (all_lists-Gives ins nin cs t several es c k.1) (λ b w. tt))
