-- ===== src/Golden/Replay/Valid.antt =====
-- The guards of a replay: which stimuli get no expected trace.
use xilinx_unittests.Prelude.{
  Bool, true, not, ◌≡◌, [], ok, bind-ok, check-ok, refuse, refuse-ok, map_err-ok,
}
use xilinx_unittests.Xvec.{Name, Vec}
use xilinx_unittests.Xvec.Structure.{check_rules}
use xilinx_unittests.Dut.{DutMap}
use xilinx_unittests.Validate.{min_sep_ps}
use xilinx_unittests.Validate.Report.{is_nil, passes}
use xilinx_unittests.Validate.Whole.{validate}
use xilinx_unittests.Validate.Whole.Clean.{IsClean, passes-none, nil_of, validate-IsClean}
use xilinx_unittests.Golden.Model.{ModelClass, Fault}
use xilinx_unittests.Golden.Replay.{replay, Progress, simultaneous_times}
use xilinx_unittests.Golden.Ports.{from_validate}

module _ (M : ModelClass) (is_label : Name → Bool) (survives : Vec → Bool) where
  -- Only a stimulus without simultaneous events, which passes the rules of the format, survives a write and
  -- read as text and is clean for the wrapper, is replayed to a trace.
  pub replay-IsClean :
      (v : Vec) (m : DutMap) (q : Progress M)
      → replay M is_label survives v m ≡ ok q
      → (simultaneous_times v.events ≡ [])
        × (check_rules is_label v ≡ ok tt)
        × (survives v ≡ true)
        × IsClean v m
  unfolding replay
  replay-IsClean v m q h =
      let times = simultaneous_times v.events in
      let (alone, h1) = check-ok (refuse (not (is_nil times)) _) _ h in
      let (report, validated, h2) =
        bind-ok (from_validate (validate is_label survives v m min_sep_ps)) _ h1 in
      let (valid, rest) = check-ok (refuse (not (passes report)) _) _ h2 in
      let (rules, text, clean) =
        validate-IsClean is_label survives v m min_sep_ps report
          (map_err-ok Fault.key_error (validate is_label survives v m min_sep_ps) report validated)
          (passes-none report (refuse-ok _ _ valid)) in
      (nil_of times (refuse-ok _ _ alone), rules, text, clean)
