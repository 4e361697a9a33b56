-- ===== src/Xvec/Structure.antt =====
-- `check_structure` and `checkable` of tools/xut/formats/xvec.py; of the former without its last
-- step, the write and read of the file as text.
pub mod Periods
pub mod Checkable
use xilinx_unittests.Prelude.{ℕ, Bool, List, [], ◌∷◌, Result, ok, err, ◌>>=◌, ◌>>◌, if◌then◌else◌}
use xilinx_unittests.Xvec.{
  Name, Clock, Event, Header, Vec, Error, is_misnamed, check_clock, check_event,
}
use xilinx_unittests.Xvec.Timing.{check_timing}
use xilinx_unittests.Xvec.FreeClocks.{sort_events}

unfoldable pub check_clocks : Header → List Clock → List Name → Result Error (Unit {0})
check_clocks h [] names = ok tt
check_clocks h (c ∷ cs) names = check_clock h c names >>= check_clocks h cs

-- `checkable` drops a clock that `_check_clock` refuses.
abbrev keep_clock : Clock → List Clock → Result Error (List Name) → List Clock
keep_clock c rest (ok names) = c ∷ rest
keep_clock c rest (err e) = rest

-- The names with which `checkable` goes on after a clock: `_check_clock` adds the clock's name before it
-- looks at the period, the duty and the mode, so a clock that is refused for these is in them.
unfoldable pub names_after : Header → Clock → List Name → List Name
names_after h c names = if is_misnamed h c names then names else c.name ∷ names

unfoldable pub keep_clocks : Header → List Clock → List Name → List Clock
keep_clocks h [] names = []
keep_clocks h (c ∷ cs) names =
    keep_clock c (keep_clocks h cs (names_after h c names)) (check_clock h c names)

module _ (is_label : Name → Bool) where
  unfoldable pub check_events : Vec → List Event → List Name → Result Error (Unit {0})
  check_events v [] labels = ok tt
  check_events v (e ∷ es) labels = check_event is_label v e labels >>= check_events v es

  -- What `check_structure` and the parser require of a stimulus.
  unfoldable pub check_rules : Vec → Result Error (Unit {0})
  check_rules v = do
    check_clocks v.header v.clocks []
    check_events v v.events []
    check_timing v.events

  abbrev keep_event : Event → List Event → Result Error (List Name) → List Event
  keep_event e rest (ok labels) = e ∷ rest
  keep_event e rest (err x) = rest

  pub keep_events : Vec → List Event → List Event
  keep_events v [] = []
  keep_events v (e ∷ es) = keep_event e (keep_events v es) (check_event is_label v e [])

  unfoldable pub checkable : Vec → Vec
  checkable v =
      let w = record v { clocks = keep_clocks v.header v.clocks []; events = [] } in
      record w { events = sort_events (keep_events w v.events) }
