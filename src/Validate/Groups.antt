-- ===== src/Validate/Groups.antt =====
-- The loop of `validate` over the times of a stimulus, in tools/xut/validate.py. A look-up that the
-- code makes with a key that is not there raises `KeyError`.
pub mod Clean
use xilinx_unittests.Prelude.{
  ℕ, zero, suc, ◌+◌, ◌-◌, String, Bool, true, false, not, ◌&&◌, ◌||◌, ◌==◌, ltb, if◌then◌else◌,
  str_eq, Option, none, some, List, [], ◌∷◌, ◌++◌, length, any, all, Result, ok, err, ◌>>=◌,
}
use xilinx_unittests.Xvec.{Name, Op, Clock, Event, Chars, name_eq, chars_eq, is_free, is_set, clock}
use xilinx_unittests.Dut.{Bit}
use xilinx_unittests.Validate.{Reason}
use xilinx_unittests.Validate.Races.{nearest}
use xilinx_unittests.Validate.Report.{
  Problem, Report, nothing, ◌⊕◌, problems, problem_if, reasons, reason_if, is_nil,
}

pub data KeyError : Type 0 where
  no_bit no_clock no_level : KeyError

abbrev pub or_raise : {A : Type 0} → KeyError → Option A → Result KeyError A
or_raise e none = err e
or_raise e (some a) = ok a

-- `cls[k]`, where the last bit of a position counts.
abbrev pub class_at : List Bit → ℕ → Option String
class_at [] k = none
class_at (b ∷ bs) k = elim (class_at bs k) [
  | some c ↦ some c
  | none ↦ if b.bit == k then some b.cls else none
]

-- `[cls[b] for b in range(k, k + n)]`
unfoldable pub classes_from : List Bit → ℕ → ℕ → Result KeyError (List String)
classes_from ins k zero = ok []
classes_from ins k (suc n) = do
  c ← or_raise no_bit (class_at ins k)
  cs ← classes_from ins (suc k) n
  ok (c ∷ cs)

unfoldable pub classes_of : List Bit → Event → Result KeyError (List String)
unfolding classes_from
classes_of ins e = classes_from ins e.lsb (e.msb + 1 - e.lsb)

abbrev pub is_async_class : String → Bool
is_async_class c = str_eq c "async" || str_eq c "gate"

abbrev pub is_two_state : ℕ → Bool
is_two_state c = c == b'0' || c == b'1'

-- What `_check_set_classes` appends.
abbrev pub set_report : ℕ → Event → List String → Report
set_report t e classes =
    let two_state = all is_two_state e.value in
    problem_if (any (λ c. str_eq c "clock") classes) (Problem.clock_bit_set t) ⊕ record {
      errors = [];
      hw_reasons = if two_state then [] else Reason.x_stimulus t ∷ [];
      x_inputs = not two_state;
    }

-- The initialisation lines.
unfoldable pub check_inits : List Bit → List Event → Result KeyError Report
unfolding classes_of
check_inits ins [] = ok nothing
check_inits ins (e ∷ es) = do
  here ←
      if e.t == 0 && is_set e.op
      then classes_of ins e >>= (λ cs. ok (set_report 0 e cs))
      else ok nothing
  rest ← check_inits ins es
  ok (here ⊕ rest)

-- `e.op not in _NOT_CHANGES`
abbrev pub is_change : Event → Bool
is_change e = elim e.op [
  | Op.sample ↦ false
  | Op.end ↦ false
  | Op.clock_start ↦ false
  | Op.clock_stop ↦ false
  | _ ↦ true
]

abbrev pub is_sample : Event → Bool
is_sample e = elim e.op [ Op.sample ↦ true | _ ↦ false ]

abbrev pub is_edge : Event → Bool
is_edge e = elim e.op [ Op.edge ↦ true | _ ↦ false ]

abbrev pub changes : List Event → List Event
changes [] = []
changes (e ∷ es) = let rest = changes es in if is_change e then e ∷ rest else rest

abbrev pub samples : List Event → List Event
samples [] = []
samples (e ∷ es) = let rest = samples es in if is_sample e then e ∷ rest else rest

-- `groupby(timed, key=lambda e: e.t)`: the runs of neighbours at one time.
abbrev pub put_first : Event → List (ℕ × List Event) → List (ℕ × List Event)
put_first e [] = (e.t, e ∷ []) ∷ []
put_first e ((t, g) ∷ gs) = if e.t == t then (t, e ∷ g) ∷ gs else (e.t, e ∷ []) ∷ (t, g) ∷ gs

unfoldable pub groups_of : List Event → List (ℕ × List Event)
groups_of [] = []
groups_of (e ∷ es) = put_first e (groups_of es)

abbrev pub sample_problems : ℕ → ℕ → Option ℕ → List Event → List Problem
sample_problems gap t none ss = []
sample_problems gap t (some c) [] = []
sample_problems gap t (some c) (s ∷ ss) =
    (if ltb (t - c) gap then Problem.sample_too_soon t s.target (t - c) ∷ [] else [])
    ++ sample_problems gap t (some c) ss

abbrev pub count_async : List String → ℕ
count_async [] = 0
count_async (c ∷ cs) = (if is_async_class c then 1 else 0) + count_async cs

-- The lists `lonely` and `mixed_line`.
pub record Lists : Type 0 where
  pub lonely : List Event
  pub mixed : List Problem

-- What one change adds to them; `several` tells that other changes share its time.
unfoldable pub lists_of : List Bit → ℕ → Bool → Event → Op → Result KeyError Lists
unfolding classes_of
lists_of ins t several e Op.edge =
    ok (record { lonely = if several then e ∷ [] else []; mixed = [] })
lists_of ins t several e Op.glbl =
    ok (record { lonely = if several then e ∷ [] else []; mixed = [] })
lists_of ins t several e Op.set = do
  cs ← classes_of ins e
  let n = count_async cs
  ok (record {
    lonely = if ltb 0 n && several then e ∷ [] else [];
    mixed =
        if ltb 1 n || ltb 0 n && ltb n (length cs)
        then Problem.mixed_line t e n (length cs - n) ∷ []
        else [];
  })
lists_of ins t several e _ = ok (record { lonely = []; mixed = [] })

unfoldable pub all_lists : List Bit → ℕ → Bool → List Event → Result KeyError Lists
unfolding lists_of
all_lists ins t several [] = ok (record { lonely = []; mixed = [] })
all_lists ins t several (e ∷ es) = do
  a ← lists_of ins t several e e.op
  b ← all_lists ins t several es
  ok (record { lonely = a.lonely ++ b.lonely; mixed = a.mixed ++ b.mixed })

-- `level`, the last edge of each clock.
abbrev pub Levels : Type 0
Levels = List (Name × Chars)

abbrev pub level_at : Name → Levels → Option Chars
level_at n [] = none
level_at n ((m, v) ∷ l) = if name_eq m n then some v else level_at n l

abbrev pub put_level : Name → Chars → Levels → Levels
put_level n v [] = (n, v) ∷ []
put_level n v ((m, w) ∷ l) = if name_eq m n then (m, v) ∷ l else (m, w) ∷ put_level n v l

abbrev pub same_edge : Event → Event → Bool
same_edge e f = e.t == f.t && (name_eq e.target f.target && chars_eq e.value f.value)

-- What the rules of a stimulus read besides the group at hand.
pub record Context : Type 0 where
  pub ins : List Bit
  pub clocks : List Clock
  pub computed : List Event
  pub edges : List ℕ
  pub sep : ℕ
  pub gap : ℕ

-- The problem of an edge; `found` is the level before it.
abbrev pub edge_report : Context → ℕ → Event → Bool → Chars → Report
edge_report c t e free found =
    if free
    then problem_if (not (any (same_edge e) c.computed)) (Problem.edge_on_free t e.target)
    else problem_if (chars_eq found e.value) (Problem.no_alternation t e.target)

-- The level of a free clock is not read.
abbrev pub level_of : Event → Bool → Levels → Result KeyError Chars
level_of e true levels = ok []
level_of e false levels = or_raise no_level (level_at e.target levels)

unfoldable pub check_edge : Context → ℕ → Event → Levels → Result KeyError (Report × Levels)
check_edge c t e levels = do
  k ← or_raise no_clock (clock c.clocks e.target)
  found ← level_of e (is_free k.mode) levels
  ok (edge_report c t e (is_free k.mode) found, put_level e.target e.value levels)

abbrev pub nearest_problem : ℕ → ℕ → Bool → Option (ℕ × ℕ) → Report
nearest_problem t sep gsr none = nothing
nearest_problem t sep gsr (some d) = problem_if (ltb d.0 sep) (Problem.close_to_edge t gsr d.0)

abbrev pub separation : Context → ℕ → Event → Bool → Report
separation c t e gsr =
    if e.simultaneous then nothing else nearest_problem t c.sep gsr (nearest c.edges t)

abbrev pub is_gsr : Name → Bool
is_gsr n = name_eq n (Name.word "GSR")

-- One turn of the last loop over the changes of a group.
unfoldable pub check_change : Context → ℕ → Event → Op → Levels → Result KeyError (Report × Levels)
unfolding check_edge classes_of
check_change c t e Op.edge levels = check_edge c t e levels
check_change c t e Op.glbl levels =
    if is_gsr e.target
    then ok (reasons (Reason.gsr_harness t ∷ []) ⊕ separation c t e true, levels)
    else ok (reasons (Reason.sim_only t e.target ∷ []), levels)
check_change c t e Op.set levels = do
  cs ← classes_of c.ins e
  ok (
    set_report t e cs ⊕ (if any is_async_class cs then separation c t e false else nothing),
    levels,
  )
check_change c t e _ levels = ok (nothing, levels)

unfoldable pub check_changes : Context → ℕ → List Event → Levels → Result KeyError (Report × Levels)
unfolding check_change
check_changes c t [] levels = ok (nothing, levels)
check_changes c t (e ∷ es) levels = do
  here ← check_change c t e e.op levels
  rest ← check_changes c t es here.1
  ok (here.0 ⊕ rest.0, rest.1)

abbrev pub lonely_problems : ℕ → List Event → List Problem
lonely_problems t [] = []
lonely_problems t (e ∷ es) = Problem.not_alone t (e ∷ es) ∷ []

abbrev pub marked : Event → Bool
marked e = e.simultaneous

-- The rules for the events at one time, but for those of the last loop over its changes.
abbrev pub group_report : Context → ℕ → Option ℕ → List Event → Lists → Report
group_report c t last_change g lists =
    problem_if (not (is_nil (samples g)) && not (is_nil (changes g))) (Problem.sample_with_change t)
    ⊕ problems (sample_problems c.gap t last_change (samples g))
    ⊕ problems
        (if all marked (changes g) then [] else lists.mixed ++ lonely_problems t lists.lonely)
    ⊕ reason_if (any marked g) (Reason.simultaneous_events t)

unfoldable pub check_group :
    Context → ℕ → Option ℕ → List Event → Levels → Result KeyError (Report × Levels)
unfolding all_lists check_changes
check_group c t last_change g levels = do
  lists ← all_lists c.ins t (ltb 1 (length (changes g))) (changes g)
  rest ← check_changes c t (changes g) levels
  ok (group_report c t last_change g lists ⊕ rest.0, rest.1)

unfoldable pub check_groups :
    Context → Option ℕ → List (ℕ × List Event) → Levels → Result KeyError Report
unfolding check_group
check_groups c last_change [] levels = ok nothing
check_groups c last_change ((t, g) ∷ gs) levels = do
  here ← check_group c t last_change g levels
  rest ← check_groups c (if is_nil (changes g) then last_change else some t) gs here.1
  ok (here.0 ⊕ rest)
