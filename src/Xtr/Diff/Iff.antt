-- ===== src/Xtr/Diff/Iff.antt =====
-- What `diff` promises: when it finds nothing, and that it takes the two runs alike.
use xilinx_unittests.Prelude.{
  ℕ, Bool, true, ◌≡◌, refl, sym, ◌↔◌, inl, inr, Bool-cases, Option, none, some, List, [], ◌∷◌, ◌++◌,
  append-none,
}
use xilinx_unittests.Names.{Chars, member}
use xilinx_unittests.Xtr.{Dict, Trace, keys, lookup}
use xilinx_unittests.Xtr.Compare.{Mismatch, order_mismatch}
use xilinx_unittests.Xtr.Compare.Order.{AreDistinct, order_mismatch-none}
use xilinx_unittests.Xtr.Compare.Matches.{lookup-member}
use xilinx_unittests.Xtr.Diff.{union, diff_samples, insert, sorted, diff, is_before}
use xilinx_unittests.Xtr.Diff.Agrees.{
  InEither, All-intro, All-union, BitsSame, ValuesSame, PortsSame, SamplesSame, diff_samples-none,
}

insert-none : (m : Mismatch) (ms : List Mismatch) → (insert m ms ≡ []) ↔ ⊥
unfolding insert
insert-none m [] = (λ h. cc, λ h. absurd h)
insert-none m (n ∷ ns) = elim (Bool-cases (is_before n m)) [
  | inl q ↦ rw q (λ h. cc, λ h. absurd h)
  | inr q ↦ rw q (λ h. cc, λ h. absurd h)
]

sorted-none : (ms : List Mismatch) → (sorted ms ≡ []) ↔ (ms ≡ [])
unfolding sorted
sorted-none [] = (λ h. refl, λ h. refl)
sorted-none (m ∷ ms) = (λ h. absurd ((insert-none m (sorted ms)).0 h), λ h. cc)

-- The traces of two runs have the same labels in one order, and the same ports at each; `a_x` and
-- `b_x` tell whether a run can show x and z.
pub record Agrees (a_x b_x : Bool) (a b : Trace) : Type 0 where
  pub in_order : keys a.samples ≡ keys b.samples
  pub same :
      (l : Chars)
      → InEither l (keys a.samples) (keys b.samples)
      → SamplesSame a_x b_x (lookup l a.samples) (lookup l b.samples)

second-known :
    (a_x b_x : Bool) (l : Chars) (d : Dict (Dict Chars)) (pa pb : Option (Dict Chars))
    → lookup l d ≡ pb
    → SamplesSame a_x b_x pa pb
    → member l (keys d) ≡ true
second-known a_x b_x l d none pb e h = absurd h
second-known a_x b_x l d (some pa) none e h = absurd h
second-known a_x b_x l d (some pa) (some pb) e h = lookup-member l d pb e

BitsSame-swap : (a_x b_x : Bool) (a b : ℕ) → BitsSame a_x b_x a b → BitsSame b_x a_x b a
BitsSame-swap a_x b_x a b (inl e) = inl (sym e)
BitsSame-swap a_x b_x a b (inr (inl h)) = inr (inr h)
BitsSame-swap a_x b_x a b (inr (inr h)) = inr (inl h)

ValuesSame-swap :
    (a_x b_x : Bool) (va vb : Chars) → ValuesSame a_x b_x va vb → ValuesSame b_x a_x vb va
ValuesSame-swap a_x b_x [] [] h = tt
ValuesSame-swap a_x b_x [] (b ∷ vb) h = absurd h
ValuesSame-swap a_x b_x (a ∷ va) [] h = absurd h
ValuesSame-swap a_x b_x (a ∷ va) (b ∷ vb) h =
    (BitsSame-swap a_x b_x a b h.0, ValuesSame-swap a_x b_x va vb h.1)

InEither-swap : (k : Chars) (ks ms : List Chars) → InEither k ks ms → InEither k ms ks
InEither-swap k ks ms (inl h) = inr h
InEither-swap k ks ms (inr h) = inl h

PortsSame-swap :
    (a_x b_x : Bool) (va vb : Option Chars) → PortsSame a_x b_x va vb → PortsSame b_x a_x vb va
PortsSame-swap a_x b_x none vb h = absurd h
PortsSame-swap a_x b_x (some va) none h = absurd h
PortsSame-swap a_x b_x (some va) (some vb) h = ValuesSame-swap a_x b_x _ _ h

SamplesSame-swap :
    (a_x b_x : Bool) (pa pb : Option (Dict Chars))
    → SamplesSame a_x b_x pa pb
    → SamplesSame b_x a_x pb pa
SamplesSame-swap a_x b_x none pb h = absurd h
SamplesSame-swap a_x b_x (some pa) none h = absurd h
SamplesSame-swap a_x b_x (some pa) (some pb) h = λ p i.
    PortsSame-swap a_x b_x (lookup p pa) (lookup p pb) (h p (InEither-swap p (keys pb) (keys pa) i))

Agrees-swap : (a_x b_x : Bool) (a b : Trace) → Agrees a_x b_x a b → Agrees b_x a_x b a
Agrees-swap a_x b_x a b h = record {
  in_order = sym h.in_order;
  same = λ l i.
      SamplesSame-swap a_x b_x (lookup l a.samples) (lookup l b.samples)
        (h.same l (InEither-swap l (keys b.samples) (keys a.samples) i));
}

-- For two traces in which no label is there twice, `diff` finds nothing exactly where they have the
-- same labels in one order and, at each label, the same ports with as many bits, of which each is the
-- same in both or an x or z of one that the other cannot show.
pub diff_iff :
    (a_x b_x : Bool) (a b : Trace)
    → AreDistinct (keys a.samples)
    → AreDistinct (keys b.samples)
    → (diff a_x b_x a b ≡ []) ↔ Agrees a_x b_x a b
unfolding diff
diff_iff a_x b_x a b da db =
    let ka = keys a.samples in
    let kb = keys b.samples in
    let found = diff_samples a_x b_x a.samples b.samples (union ka kb) in
    let empty = sorted-none (found ++ order_mismatch ka kb) in
    let both = append-none found (order_mismatch ka kb) in
    let samples = diff_samples-none a_x b_x a.samples b.samples (union ka kb) in
    let each =
      All-union (λ l. SamplesSame a_x b_x (lookup l a.samples) (lookup l b.samples)) ka kb in
    let order =
      λ (s : (l : Chars)
          → InEither l ka kb
          → SamplesSame a_x b_x (lookup l a.samples) (lookup l b.samples)).
        order_mismatch-none ka kb da db
          (All-intro (λ l. member l kb ≡ true) ka
            (λ l m.
              second-known a_x b_x l b.samples (lookup l a.samples) (lookup l b.samples) refl
                (s l (inl m))))
          (All-intro (λ l. member l ka ≡ true) kb
            (λ l m.
              second-known b_x a_x l a.samples (lookup l b.samples) (lookup l a.samples) refl (
                SamplesSame-swap a_x b_x (lookup l a.samples) (lookup l b.samples)
                  (s l (inr m))))) in
    (
      λ h.
          let (f, o) = both.0 (empty.0 h) in
          let s = each.0 (samples.0 f) in record { in_order = (order s).0 o; same = s },
      λ m. empty.1 (both.1 (samples.1 (each.1 m.same), (order m.same).1 m.in_order)),
    )

-- For two traces in which no label is there twice, `diff` finds nothing exactly where it finds nothing
-- with the two runs the other way round.
pub diff-swap :
    (a_x b_x : Bool) (a b : Trace)
    → AreDistinct (keys a.samples)
    → AreDistinct (keys b.samples)
    → (diff a_x b_x a b ≡ []) ↔ (diff b_x a_x b a ≡ [])
diff-swap a_x b_x a b da db =
    let here = diff_iff a_x b_x a b da db in
    let there = diff_iff b_x a_x b a db da in
    (
      λ h. there.1 (Agrees-swap a_x b_x a b (here.0 h)),
      λ h. here.1 (Agrees-swap b_x a_x b a (there.0 h)),
    )
