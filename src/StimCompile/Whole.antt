-- ===== src/StimCompile/Whole.antt =====
-- `compile_vec` of tools/xut/stimcompile.py, the whole of it, with `_check_fits`: which stimuli are compiled
-- for a wrapper.
pub mod Image
use xilinx_unittests.Prelude.{
  Bool, true, false, not, ◌&&◌, ◌||◌, ◌==◌, if◌then◌else◌, str_eq, List, [], ◌∷◌, Result, ok, err,
  ◌>>=◌, ◌>>◌, refuse, map_err,
}
use xilinx_unittests.Xvec.{Name, Clock, Vec, Error, is_free}
use xilinx_unittests.Xvec.Structure.{check_rules}
use xilinx_unittests.Dut.{DutMap}
use xilinx_unittests.Validate.{min_sep_ps}
use xilinx_unittests.Validate.Report.{Problem, passes}
use xilinx_unittests.Validate.Groups.{KeyError}
use xilinx_unittests.Validate.Whole.{validate}
use xilinx_unittests.StimCompile.{Compiled, CompileError, clock_words, compile_fitting}

-- What is raised, where it is not a `CompileError` of the words.
pub data Refused : Type 0 where
  malformed : Error → Refused
  no_round_trip wrong_size wrong_wrapper : Refused
  invalid : List Problem → Refused
  key_error : KeyError → Refused
  words : CompileError → Refused

abbrev pub from_rules : {A : Type 0} → Result Error A → Result Refused A
from_rules r = map_err malformed r

abbrev pub from_words : {A : Type 0} → Result CompileError A → Result Refused A
from_words r = map_err words r

abbrev pub from_report : {A : Type 0} → Result KeyError A → Result Refused A
from_report r = map_err key_error r

-- The words of each free clock are made, so that one with an empty phase is refused.
unfoldable pub check_free : Vec → List Clock → Result Refused (Unit {0})
check_free v [] = ok tt
check_free v (c ∷ cs) =
    let rest = check_free v cs in
    if is_free c.mode then (from_words (clock_words v c.name 0) >>= λ ws. rest) else rest

abbrev pub same_size : Vec → DutMap → Bool
same_size v m = v.header.nin == m.nin && v.header.nout == m.nout && v.header.nclk == m.nclk

abbrev pub same_wrapper : Vec → DutMap → Bool
same_wrapper v m = str_eq v.header.prim m.prim && str_eq v.header.cfg m.cfg

module _ (is_label : Name → Bool) (survives : Vec → Bool) where
  -- `_check_fits`
  unfoldable pub check_fits : Vec → DutMap → Result Refused (Unit {0})
  check_fits v m = do
    from_rules (check_rules is_label v)
    refuse (not (survives v)) no_round_trip
    refuse (not (same_size v m)) wrong_size
    refuse (not (same_wrapper v m)) wrong_wrapper
    check_free v v.clocks
    r ← from_report (validate is_label survives v m min_sep_ps)
    refuse (not (passes r)) (invalid r.errors)

  unfoldable pub compile_vec : Vec → DutMap → Result Refused Compiled
  unfolding check_fits
  compile_vec v m = do check_fits v m; from_words (compile_fitting v)
