-- ===== src/Flop/Refines.antt =====
-- The golden model behaves as the logic tables say.
use xilinx_unittests.Prelude.{
  ℕ, Bool, true, ◌||◌, ◌==◌, ◌≡◌, refl, arith, if◌then◌else◌, Bool-cases, Option, none, some, List,
  [], ◌∷◌, Result, ok, err, ◌>>=◌, str_eq, inl, inr, ◌∙◌,
}
use xilinx_unittests.Flop as Model
use xilinx_unittests.Flop.{
  Flop, Kind, Port, Fault, Attrs, port_of, new, power_on, drive, drive_checked, edge, set_gsr,
}
use xilinx_unittests.Flop.Table.{Row, Config, Event, level, react, config, row}
use xilinx_unittests.Flop.Calls.{
  Call, apply, run, SameConfig, drive-SameConfig, edge-SameConfig, set_gsr-SameConfig,
}

-- The output agrees with the levels at the pins: what holds between two calls.
abbrev pub IsSettled : Flop → Type 0
IsSettled f = level (config f) (row f) ≡ row f

-- One call on a settled model is one step of the table, and leaves the model settled.
drive-react :
    (p : Port) (v : Bool) (f : Flop)
    → IsSettled f
    → (row (drive p v f) ≡ react (config f) (Event.drive p v) (row f)) × IsSettled (drive p v f)
unfolding drive
drive-react Port.ctrl v f h = ground arith
drive-react _ v f h = ground arith

edge-react :
    (r : Bool) (f : Flop)
    → IsSettled f
    → (row (edge r f) ≡ react (config f) (Event.edge r) (row f)) × IsSettled (edge r f)
unfolding edge
edge-react r f h = ground arith

set_gsr-react :
    (v : Bool) (f : Flop)
    → IsSettled f
    → (row (set_gsr v f) ≡ react (config f) (Event.gsr v) (row f)) × IsSettled (set_gsr v f)
unfolding set_gsr
set_gsr-react v f h = ground arith

-- The first drive of the control pin after power-on settles the model.
pub power_on-IsSettled : (v : Bool) (f : Flop) → IsSettled (drive Port.ctrl v (power_on f))
unfolding drive power_on
power_on-IsSettled v f = ground arith

config-eq : (f g : Flop) → SameConfig f g → config g ≡ config f
config-eq f g s = ground arith

-- What a call does to the table; `none` where the guide knows no such pin, value or signal.
abbrev pub event_at : Option Port → ℕ → Option Event
event_at none v = none
event_at (some p) v = if v == 0 || v == 1 then some (Event.drive p (v == 1)) else none

abbrev pub event_of : Kind → Call → Option Event
event_of k (Call.set_input p v) = event_at (port_of k p) v
event_of k (Call.clock_edge p r) = if str_eq p "C" then some (Event.edge r) else none
event_of k (Call.glbl s v) = if str_eq s "GSR" then some (Event.gsr v) else none

-- The model and the table agree: both refuse, or they show the same pins, GSR and output.
abbrev pub Agrees : Option Event → Flop → Result Fault Flop → Type 0
Agrees none f r = (e : Fault) × (r ≡ err e)
Agrees (some x) f r =
    (g : Flop) × (r ≡ ok g) × (row g ≡ react (config f) x (row f)) × IsSettled g × SameConfig f g

drive_checked-Agrees :
    (o : Option Port) (v : ℕ) (f : Flop)
    → IsSettled f
    → Agrees (event_at o v) f (drive_checked o v f)
drive_checked-Agrees none v f h = (Fault.not_an_input, refl)
drive_checked-Agrees (some p) v f h = elim (Bool-cases (v == 0 || v == 1)) [
  | inl e ↦ simp e (
    drive p (v == 1) f,
    refl,
    (drive-react p (v == 1) f h).0,
    (drive-react p (v == 1) f h).1,
    drive-SameConfig p (v == 1) f,
  )
  | inr e ↦ simp e (Fault.not_a_bit, refl)
]

apply-Agrees :
    (x : Call) (f : Flop)
    → f.powered_on ≡ true
    → IsSettled f
    → Agrees (event_of f.kind x) f (apply x f)
unfolding apply Model.set_input Model.clock_edge Model.glbl
apply-Agrees (Call.set_input p v) f on h = simp on (drive_checked-Agrees (port_of f.kind p) v f h)
apply-Agrees (Call.clock_edge p r) f on h = elim (Bool-cases (str_eq p "C")) [
  | inl e ↦
      simp (on, e) (edge r f, refl, (edge-react r f h).0, (edge-react r f h).1, edge-SameConfig r f)
  | inr e ↦ simp (on, e) (Fault.not_a_clock, refl)
]
apply-Agrees (Call.glbl s v) f on h = elim (Bool-cases (str_eq s "GSR")) [
  | inl e ↦
      simp (on, e)
        (
          set_gsr v f,
          refl,
          (set_gsr-react v f h).0,
          (set_gsr-react v f h).1,
          set_gsr-SameConfig v f,
        )
  | inr e ↦ simp (on, e) (Fault.unsupported_signal, refl)
]

-- The table run over a sequence of calls; `none` where one of them is refused.
unfoldable pub table_run : Kind → Config → List Call → Row → Option Row
table_run k c [] s = some s
table_run k c (x ∷ xs) s = elim (event_of k x) [
  | none ↦ none
  | some e ↦ table_run k c xs (react c e s)
]

-- Both refuse, or they end at the same pins, GSR and output.
abbrev SameEnd : Option Row → Result Fault Flop → Type 0
SameEnd none r = (e : Fault) × (r ≡ err e)
SameEnd (some s) r = (g : Flop) × (r ≡ ok g) × (row g ≡ s)

run-SameEnd :
    (xs : List Call) (f : Flop)
    → f.powered_on ≡ true
    → IsSettled f
    → SameEnd (table_run f.kind (config f) xs (row f)) (run xs f)
unfolding run table_run
run-SameEnd [] f on h = (f, refl, refl)
run-SameEnd (x ∷ xs) f on h = next (event_of f.kind x) (apply-Agrees x f on h) (run-SameEnd xs)
  where
    next :
        (o : Option Event)
        → Agrees o f (apply x f)
        → ((g : Flop)
            → g.powered_on ≡ true
            → IsSettled g
            → SameEnd (table_run g.kind (config g) xs (row g)) (run xs g))
        → SameEnd
            (elim o [
              | none ↦ none
              | some e ↦ table_run f.kind (config f) xs (react (config f) e (row f))
            ])
            (apply x f >>= run xs)
    next none a ih = (a.0, rw a.1 refl)
    next (some e) a ih =
        let (g, ran, shown, settled, same) = a in
        rw (ran, ← shown, ← config-eq f g same, ← same.kind) (ih g (same.powered_on ∙ on) settled)

-- What a sequence of calls shows at its end; `none` where a call raised.
abbrev pub shown : Result Fault Flop → Option Row
shown (ok g) = some (row g)
shown (err e) = none

shown-SameEnd : (o : Option Row) (r : Result Fault Flop) → SameEnd o r → shown r ≡ o
shown-SameEnd none r h = rw h.1
shown-SameEnd (some s) r h = let (g, ran, same) = h in rw (ran, ← same)

-- From a model that is powered on and settled, every sequence of calls raises exactly where the
-- logic table knows no such pin, value or signal, and else ends at the pins, GSR and output of the
-- logic table.
pub shown-run :
    (xs : List Call) (f : Flop)
    → f.powered_on ≡ true
    → IsSettled f
    → shown (run xs f) ≡ table_run f.kind (config f) xs (row f)
shown-run xs f on h =
    shown-SameEnd (table_run f.kind (config f) xs (row f)) (run xs f) (run-SameEnd xs f on h)
