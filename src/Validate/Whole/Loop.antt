-- ===== src/Validate/Whole/Loop.antt =====
-- The loop of `validate` raises no KeyError for events whose bits and clocks are there.
use mathlib.Core.List.{Memᴰ}
use mathlib.Core.List.Memᴰ as MemD
use xilinx_unittests.Prelude.{
  ℕ, ◌<◌, Bool, true, false, ◌&&◌, ◌==◌, ltb, if◌then◌else◌, ◌≡◌, inl, inr, refl, Bool-cases,
  Option, some, List, [], ◌∷◌, length, All, ok, ◌>>=◌, Gives, Gives-bind,
}
use xilinx_unittests.Xvec.{Chars, Name, Op, Clock, Event, name_eq, is_set, is_free, clock}
use xilinx_unittests.Dut.{Bit}
use xilinx_unittests.Validate.Report.{Report, nothing, is_nil}
use xilinx_unittests.Validate.Groups.{
  Context, Levels, classes_of, all_lists, changes, level_at, put_level, is_gsr, is_change,
  put_first, set_report, level_of, check_edge, check_change, check_changes, check_group,
  check_groups, groups_of, check_inits,
}
use xilinx_unittests.Validate.Whole.{idle}
use xilinx_unittests.Validate.Whole.Lookups.{
  Any, Covers, Declared, IsKnownAs, IsKnown, classes_of-Gives, all_lists-Gives,
}

-- Every declared clock has a level.
abbrev HasLevels : List Clock → Levels → Type 0
HasLevels cs levels = (n : Name) → Declared cs n → (x : Chars) × (level_at n levels ≡ some x)

level_at-put_level :
    (n m : Name) (v x : Chars) (l : Levels)
    → level_at n l ≡ some x
    → (y : Chars) × (level_at n (put_level m v l) ≡ some y)
level_at-put_level n m v x [] h = cc
level_at-put_level n m v x ((k, w) ∷ l) h = elim (Bool-cases (name_eq k n)) [
  | inl q ↦ elim (Bool-cases (name_eq k m)) [
    | inl r ↦ (v, rw (r, q) refl)
    | inr r ↦ (w, rw (r, q) refl)
  ]
  | inr q ↦ elim (Bool-cases (name_eq k m)) [
    | inl r ↦ (x, rw (r, q) (rw q at h))
    | inr r ↦ let later = level_at-put_level n m v x l (rw q at h) in (later.0, rw (r, q) later.1)
  ]
]

put_level-HasLevels :
    (cs : List Clock) (m : Name) (v : Chars) (l : Levels)
    → HasLevels cs l
    → HasLevels cs (put_level m v l)
put_level-HasLevels cs m v l h n d = let (x, found) = h n d in level_at-put_level n m v x l found

pub idle-HasLevels : (cs : List Clock) → HasLevels cs (idle cs)
idle-HasLevels [] n d = cc
idle-HasLevels (c ∷ cs) n d = elim (Bool-cases (name_eq c.name n)) [
  | inl q ↦ (b'f' ∷ [], rw q refl)
  | inr q ↦ let later = idle-HasLevels cs n (rw q at d) in (later.0, rw q later.1)
]

Declared-clock : (cs : List Clock) (n : Name) → Declared cs n → (c : Clock) × (clock cs n ≡ some c)
Declared-clock [] n d = cc
Declared-clock (c ∷ cs) n d = elim (Bool-cases (name_eq c.name n)) [
  | inl q ↦ (c, rw q refl)
  | inr q ↦ let later = Declared-clock cs n (rw q at d) in (later.0, rw q later.1)
]

abbrev KeepsLevels : List Clock → Report × Levels → Type 0
KeepsLevels cs p = HasLevels cs p.1

level_of-Gives :
    (cs : List Clock) (e : Event) (free : Bool) (levels : Levels)
    → HasLevels cs levels
    → Declared cs e.target
    → Gives Any (level_of e free levels)
level_of-Gives cs e true levels h d = tt
level_of-Gives cs e false levels h d = let (x, found) = h e.target d in rw found tt

All-if :
    (P : Event → Type 0) (b : Bool) (e : Event) (es : List Event)
    → P e
    → All P es
    → All P (if b then e ∷ es else es)
All-if P true e es h a = (h, a)
All-if P false e es h a = a

changes-All : (P : Event → Type 0) (g : List Event) → All P g → All P (changes g)
changes-All P [] h = tt
changes-All P (e ∷ g) h = All-if P (is_change e) e (changes g) h.0 (changes-All P g h.1)

put_first-All :
    (P : Event → Type 0) (e : Event) (gs : List (ℕ × List Event))
    → P e
    → All (λ g. All P g.1) gs
    → All (λ g. All P g.1) (put_first e gs)
put_first-All P e [] h a = ((h, tt), tt)
put_first-All P e ((t, g) ∷ gs) h a = elim (Bool-cases (e.t == t)) [
  | inl q ↦ rw q ((h, a.0), a.1)
  | inr q ↦ rw q ((h, tt), a)
]

pub groups_of-All :
    (P : Event → Type 0) (es : List Event) → All P es → All (λ g. All P g.1) (groups_of es)
unfolding groups_of
groups_of-All P [] h = tt
groups_of-All P (e ∷ es) h = put_first-All P e (groups_of es) h.0 (groups_of-All P es h.1)

pub All-of_mem : (P : Event → Type 0) (es : List Event) → ((e : Event) → Memᴰ e es → P e) → All P es
All-of_mem P [] f = tt
All-of_mem P (e ∷ es) f = (f e (MemD.head refl), All-of_mem P es (λ x m. f x (MemD.tail m)))

module _ (c : Context) (nin : ℕ) (covers : Covers c.ins nin) where
  check_edge-Gives :
      (t : ℕ) (e : Event) (levels : Levels)
      → HasLevels c.clocks levels
      → Declared c.clocks e.target
      → Gives (KeepsLevels c.clocks) (check_edge c t e levels)
  unfolding check_edge
  check_edge-Gives t e levels h d =
      let (k, found) = Declared-clock c.clocks e.target d in
      rw found (
        Gives-bind Any (KeepsLevels c.clocks) (level_of e (is_free k.mode) levels) _
          (level_of-Gives c.clocks e (is_free k.mode) levels h d)
          (λ v u. put_level-HasLevels c.clocks e.target e.value levels h))

  check_change-Gives :
      (t : ℕ) (e : Event) (op : Op) (levels : Levels)
      → HasLevels c.clocks levels
      → IsKnownAs nin c.clocks e op
      → Gives (KeepsLevels c.clocks) (check_change c t e op levels)
  unfolding check_change
  check_change-Gives t e Op.edge levels h k = check_edge-Gives t e levels h k
  check_change-Gives t e Op.glbl levels h k = elim (Bool-cases (is_gsr e.target)) [
    | inl q ↦ rw q h
    | inr q ↦ rw q h
  ]
  check_change-Gives t e Op.set levels h k =
      Gives-bind Any (KeepsLevels c.clocks) (classes_of c.ins e) _
        (classes_of-Gives c.ins nin e covers k) (λ cs u. h)
  check_change-Gives t e Op.sample levels h k = h
  check_change-Gives t e Op.clock_start levels h k = h
  check_change-Gives t e Op.clock_stop levels h k = h
  check_change-Gives t e Op.end levels h k = h
  check_change-Gives t e (Op.unknown o) levels h k = h

  check_changes-Gives :
      (t : ℕ) (es : List Event) (levels : Levels)
      → HasLevels c.clocks levels
      → All (IsKnown nin c.clocks) es
      → Gives (KeepsLevels c.clocks) (check_changes c t es levels)
  unfolding check_changes
  check_changes-Gives t [] levels h k = h
  check_changes-Gives t (e ∷ es) levels h k =
      Gives-bind (KeepsLevels c.clocks) (KeepsLevels c.clocks) (check_change c t e e.op levels) _
        (check_change-Gives t e e.op levels h k.0)
        (λ p kept.
          Gives-bind (KeepsLevels c.clocks) (KeepsLevels c.clocks) (check_changes c t es p.1) _
            (check_changes-Gives t es p.1 kept k.1) (λ q later. later))

  pub check_groups-Gives :
      (last_change : Option ℕ) (gs : List (ℕ × List Event)) (levels : Levels)
      → HasLevels c.clocks levels
      → All (λ g. All (IsKnown nin c.clocks) g.1) gs
      → Gives Any (check_groups c last_change gs levels)
  unfolding check_groups check_group
  check_groups-Gives last_change [] levels h k = tt
  check_groups-Gives last_change ((t, g) ∷ gs) levels h k =
      let known = changes-All (IsKnown nin c.clocks) g k.0 in
      let next = if is_nil (changes g) then last_change else some t in
      let several = ltb 1 (length (changes g)) in
      Gives-bind (KeepsLevels c.clocks) Any (check_group c t last_change g levels) _
        (Gives-bind Any (KeepsLevels c.clocks) (all_lists c.ins t several (changes g)) _
          (all_lists-Gives c.ins nin c.clocks t several (changes g) covers known)
          (λ l u.
            Gives-bind (KeepsLevels c.clocks) (KeepsLevels c.clocks)
              (check_changes c t (changes g) levels) _
              (check_changes-Gives t (changes g) levels h known) (λ p kept. kept)))
        (λ p kept.
          Gives-bind Any Any (check_groups c next gs p.1) _
            (check_groups-Gives next gs p.1 kept k.1) (λ r u. tt))

set-in_range :
    (nin : ℕ) (cs : List Clock) (e : Event) (op : Op)
    → is_set op ≡ true
    → IsKnownAs nin cs e op
    → e.msb < nin
set-in_range nin cs e Op.set h k = k
set-in_range nin cs e Op.edge h k = cc
set-in_range nin cs e Op.glbl h k = cc
set-in_range nin cs e Op.sample h k = cc
set-in_range nin cs e Op.clock_start h k = cc
set-in_range nin cs e Op.clock_stop h k = cc
set-in_range nin cs e Op.end h k = cc
set-in_range nin cs e (Op.unknown o) h k = cc

and-right : (a b : Bool) → (a && b) ≡ true → b ≡ true
and-right true b h = h
and-right false b h = cc

init-Gives :
    (ins : List Bit) (nin : ℕ) (cs : List Clock) (e : Event)
    → Covers ins nin
    → IsKnown nin cs e
    → Gives Any (
        if e.t == 0 && is_set e.op
        then classes_of ins e >>= (λ ds. ok (set_report 0 e ds))
        else ok nothing)
init-Gives ins nin cs e c k = elim (Bool-cases (e.t == 0 && is_set e.op)) [
  | inl q ↦
      let lt = set-in_range nin cs e e.op (and-right (e.t == 0) (is_set e.op) q) k in
      rw q (Gives-bind Any Any (classes_of ins e) _ (classes_of-Gives ins nin e c lt) (λ ds u. tt))
  | inr q ↦ rw q tt
]

pub check_inits-Gives :
    (ins : List Bit) (nin : ℕ) (cs : List Clock) (es : List Event)
    → Covers ins nin
    → All (IsKnown nin cs) es
    → Gives Any (check_inits ins es)
unfolding check_inits
check_inits-Gives ins nin cs [] c k = tt
check_inits-Gives ins nin cs (e ∷ es) c k =
    Gives-bind Any Any _ _ (init-Gives ins nin cs e c k.0) (λ a u.
      Gives-bind Any Any (check_inits ins es) _ (check_inits-Gives ins nin cs es c k.1) (λ b w. tt))
