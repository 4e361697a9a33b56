-- ===== src/Xtr/Compare/Matches.antt =====
-- What `compare` promises.
use xilinx_unittests.Prelude.{
  append-none, Bool, true, ◌≡◌, refl, subst, ◌↔◌, inl, inr, Bool-cases, some, List, [], ◌∷◌, ◌++◌,
  All,
}
use xilinx_unittests.Names.{Chars, chars_eq, member}
use xilinx_unittests.Xtr.{Dict, Trace, keys, lookup}
use xilinx_unittests.Xtr.Compare.{compare, compare_samples, extra_samples, order_mismatch}
use xilinx_unittests.Xtr.Compare.Bits.{SampleAgrees, compare_samples-none}
use xilinx_unittests.Xtr.Compare.Order.{AreDistinct, AllIn, AllIn-refl, order_mismatch-none}

extra_samples-none : (known ls : List Chars) → (extra_samples known ls ≡ []) ↔ AllIn known ls
unfolding extra_samples
extra_samples-none known [] = (λ h. tt, λ h. refl)
extra_samples-none known (l ∷ ls) =
    let later = extra_samples-none known ls in
    elim (Bool-cases (member l known)) [
      | inl q ↦ rw q (λ h. (refl, later.0 h), λ h. later.1 h.1)
      | inr q ↦ rw q (λ h. cc, λ h. cc h.0)
    ]

pub lookup-member :
    {A : Type 0} (l : Chars) (d : Dict A) (a : A) → lookup l d ≡ some a → member l (keys d) ≡ true
unfolding lookup
lookup-member l [] a h = cc
lookup-member l ((k, v) ∷ d) a h = elim (Bool-cases (chars_eq l k)) [
  | inl q ↦ rw q refl
  | inr q ↦ rw q (lookup-member l d a (rw q at h))
]

SampleAgrees-AllIn :
    (x : Bool) (got samples : Dict (Dict Chars))
    → All (SampleAgrees x got) samples
    → AllIn (keys got) (keys samples)
SampleAgrees-AllIn x got [] h = tt
SampleAgrees-AllIn x got ((l, ports) ∷ samples) h =
    let (d, found, agrees) = h.0 in
    (lookup-member l got d found, SampleAgrees-AllIn x got samples h.1)

-- The run shows the labels of the expected trace in its order, and at each of them every expected
-- port, bit by bit; `x` tells whether the run can show x and z.
pub record Matches (x : Bool) (e a : Trace) : Type 0 where
  pub in_order : keys e.samples ≡ keys a.samples
  pub agree : All (SampleAgrees x a.samples) e.samples

-- For two traces in which no label is there twice, the comparison finds nothing exactly where the
-- run's trace has the labels of the expected one in its order and, at each label, every expected
-- port with as many bits, of which each is a don't-care, an x or z that the run cannot show, or the
-- run's bit.
pub compare_iff :
    (x : Bool) (e a : Trace)
    → AreDistinct (keys e.samples)
    → AreDistinct (keys a.samples)
    → (compare x e a ≡ []) ↔ Matches x e a
unfolding compare
compare_iff x e a de da =
    let ke = keys e.samples in
    let ka = keys a.samples in
    let found = compare_samples x e.prov a.samples e.samples in
    let first = append-none (found ++ extra_samples ke ka) (order_mismatch ke ka) in
    let second = append-none found (extra_samples ke ka) in
    let samples = compare_samples-none x e.prov a.samples e.samples in
    let extra = extra_samples-none ke ka in
    let order = λ (s : All (SampleAgrees x a.samples) e.samples) (k : AllIn ke ka).
      order_mismatch-none ke ka de da (SampleAgrees-AllIn x a.samples e.samples s) k in
    (
      λ h.
          let (both, o) = first.0 h in
          let s = samples.0 (second.0 both).0 in
          let k = extra.0 (second.0 both).1 in record { in_order = (order s k).0 o; agree = s },
      λ m.
          let known = subst (λ ls. AllIn ke ls) m.in_order (AllIn-refl ke) in
          first.1 (second.1 (samples.1 m.agree, extra.1 known), (order m.agree known).1 m.in_order),
    )
