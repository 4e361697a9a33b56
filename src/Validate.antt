-- ===== src/Validate.antt =====
-- tools/xut/validate.py: the class rules for a stimulus, and whether hardware can render it.
pub mod Gaps
pub mod Races
pub mod Nearest
pub mod Report
pub mod Groups
pub mod Whole
pub mod Tests
use xilinx_unittests.Prelude.{
  ℕ, String, zero, suc, ◌+◌, ◌-◌, max, Bool, true, false, not, ◌&&◌, ◌==◌, ltb, if◌then◌else◌,
  Option, none, some, List, [], ◌∷◌,
}
use xilinx_unittests.Xvec.{Name, Event, Vec, Header, is_set}
use xilinx_unittests.Dut.{DutMap}

abbrev pub min_sep_ps : ℕ
min_sep_ps = 1000

abbrev pub roc_width_ps : ℕ
roc_width_ps = 100000

abbrev pub gres_end_ps : ℕ
gres_end_ps = 10000 + 10000

abbrev pub min_settle_ps : ℕ
min_settle_ps = max roc_width_ps gres_end_ps + min_sep_ps

abbrev pub gap_or : Option ℕ → ℕ
gap_or none = min_sep_ps
gap_or (some zero) = min_sep_ps
gap_or (some (suc n)) = suc n

-- `m.min_event_gap_ps or MIN_SEP_PS`: a gap of 0 counts as none.
unfoldable pub min_event_gap : ℕ → DutMap → ℕ
min_event_gap sep m = max sep (gap_or m.min_event_gap_ps)

abbrev pub sep_or : Option ℕ → ℕ
sep_or none = min_sep_ps
sep_or (some s) = s

-- `vec.header.get("async_sep_ps", DEFAULT_ASYNC_SEP_PS)`
abbrev pub sep_of : Header → ℕ
sep_of h = sep_or h.async_sep_ps

-- An initialisation line: a `set` at time 0.
abbrev pub is_init : Event → Bool
is_init e = e.t == 0 && is_set e.op

-- Why hardware cannot render a file.
pub data Reason : Type 0 where
  gap_below_minimum : ℕ → ℕ → Reason
  needs_pad_harness : List String → Reason
  free_clocks : List Name → Reason
  x_stimulus simultaneous_events gsr_harness : ℕ → Reason
  sim_only : ℕ → Name → Reason

-- `sorted({...})`: ascending, each time once.
unfoldable pub insert_time : ℕ → List ℕ → List ℕ
insert_time t [] = t ∷ []
insert_time t (s ∷ ts) =
    if t == s then s ∷ ts else if ltb t s then t ∷ s ∷ ts else s ∷ insert_time t ts

unfoldable pub event_times : List Event → List ℕ
event_times [] = []
event_times (e ∷ es) = let rest = event_times es in if is_init e then rest else insert_time e.t rest

unfoldable pub gap_reasons : ℕ → List ℕ → List Reason
gap_reasons gap [] = []
gap_reasons gap (s ∷ []) = []
gap_reasons gap (s ∷ t ∷ ts) =
    let rest = gap_reasons gap (t ∷ ts) in
    if ltb (t - s) gap then gap_below_minimum s t ∷ rest else rest

-- `_check_event_gaps`
unfoldable pub check_event_gaps : Vec → ℕ → List Reason
check_event_gaps v gap = gap_reasons gap (event_times v.events)
