-- ===== src/Flop/Inversion.antt =====
-- IS_C_INVERTED makes the falling edge the active one, and nothing else.
use xilinx_unittests.Prelude.{
  ℕ, true, not, ◌≡◌, refl, arith, Option, none, some, List, [], ◌∷◌, map, sym, ◌∙◌,
}
use xilinx_unittests.Flop.{Flop, Kind, Port, port_of}
use xilinx_unittests.Flop.Table.{Config, Row, Event, react, config, row}
use xilinx_unittests.Flop.Calls.{Call, run}
use xilinx_unittests.Flop.Refines.{IsSettled, event_at, event_of, table_run, shown, shown-run}

-- The same model with the attribute IS_C_INVERTED the other way round.
abbrev pub invert_clock : Flop → Flop
invert_clock f = record f { inv_c = not f.inv_c }

-- The same call with the clock edges the other way round.
abbrev pub swap_edge : Call → Call
swap_edge (Call.clock_edge p r) = Call.clock_edge p (not r)
swap_edge x = x

abbrev invert : Config → Config
invert c = record c { inv_c = not c.inv_c }

abbrev swap : Event → Event
swap (Event.edge r) = Event.edge (not r)
swap e = e

react-swap : (c : Config) (e : Event) (s : Row) → react (invert c) (swap e) s ≡ react c e s
react-swap c (Event.edge r) s = ground arith
react-swap c _ s = refl

abbrev swap_event : Option Event → Option Event
swap_event none = none
swap_event (some e) = some (swap e)

event_at-swap : (o : Option Port) (v : ℕ) → event_at o v ≡ swap_event (event_at o v)
event_at-swap none v = refl
event_at-swap (some p) v = ground arith

event_of-swap_edge : (k : Kind) (x : Call) → event_of k (swap_edge x) ≡ swap_event (event_of k x)
event_of-swap_edge k (Call.set_input p v) = event_at-swap (port_of k p) v
event_of-swap_edge k (Call.clock_edge p r) = ground arith
event_of-swap_edge k (Call.glbl p v) = ground arith

table_run-swap_edge :
    (k : Kind) (c : Config) (xs : List Call) (s : Row)
    → table_run k (invert c) (map swap_edge xs) s ≡ table_run k c xs s
unfolding table_run
table_run-swap_edge k c [] s = refl
table_run-swap_edge k c (x ∷ xs) s =
    rw (event_of-swap_edge k x, table_run) (next (event_of k x) (table_run-swap_edge k c xs))
  where
    next :
        (o : Option Event)
        → ((t : Row) → table_run k (invert c) (map swap_edge xs) t ≡ table_run k c xs t)
        → elim (swap_event o) [
          | none ↦ none
          | some e ↦ table_run k (invert c) (map swap_edge xs) (react (invert c) e s)
        ]
          ≡ elim o [ none ↦ none | some e ↦ table_run k c xs (react c e s) ]
    next none ih = refl
    next (some e) ih = rw (react-swap c e s) (ih (react c e s))

-- A powered and settled model with IS_C_INVERTED the other way round shows the same pins, GSR and
-- output after the same calls with every clock edge the other way round, and raises where the model
-- does.
pub shown-swap_edge :
    (xs : List Call) (f : Flop)
    → f.powered_on ≡ true
    → IsSettled f
    → shown (run (map swap_edge xs) (invert_clock f)) ≡ shown (run xs f)
shown-swap_edge xs f on h =
    shown-run (map swap_edge xs) (invert_clock f) on h
    ∙ table_run-swap_edge f.kind (config f) xs (row f)
    ∙ sym (shown-run xs f on h)
