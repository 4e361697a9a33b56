-- ===== src/StimCompile/Tests.antt =====
-- A stimulus with a set and a sample, and the theorems on its image.
use xilinx_unittests.Prelude.{
  ℕ, true, false, All, ◌≡◌, refl, none, [], ◌∷◌, Result, ok, err, IsSorted,
}
use xilinx_unittests.Xvec.{Name, Op, Clock, Vec, is_free}
use xilinx_unittests.Xvec.Structure.{check_rules}
use xilinx_unittests.Validate.Whole.Clean.{IsClean}
use xilinx_unittests.Validate.Whole.Tests.{wrapper, captures, any_label, always}
use xilinx_unittests.StimCompile.Whole.{Refused, same_size, same_wrapper, compile_vec}
use xilinx_unittests.StimCompile.Whole.Image.{HasPhases, compile_vec-Holds}
use xilinx_unittests.Xvec.FreeClocks.{free_runs, runs_from, open_unstarted}
use xilinx_unittests.StimCompile.{
  Operation, Compiled, CompileError, word, clock_words, set_words, event_words, compile_events,
  free_words, end_words, time_of, compile_fitting,
}
use xilinx_unittests.StimCompile.Fields.{HasFields, word-HasFields}
use xilinx_unittests.StimCompile.Samples.{Holds, sampled, compile_fitting-Holds}

abbrev or_zero : Result CompileError ℕ → ℕ
or_zero (ok w) = w
or_zero (err e) = 0

fits : word Operation.set_bit 3 2 120000 ≡ ok (or_zero (word Operation.set_bit 3 2 120000))
unfolding word
fits = refl

word-HasFields_example :
    HasFields Operation.set_bit 3 2 120000 (or_zero (word Operation.set_bit 3 2 120000))
word-HasFields_example =
    word-HasFields Operation.set_bit 3 2 120000 (or_zero (word Operation.set_bit 3 2 120000)) fits

abbrev stimulus : Vec
stimulus = record {
  header = record {
    prim = "FDRE";
    cfg = "base";
    nin = 3;
    nout = 1;
    nclk = 1;
    settle_ps = 120000;
    seed = 7;
    async_sep_ps = none;
    expect = none;
    illegal = none;
    attrs = [];
  };
  clocks = [];
  events =
      record {
        t = 120000;
        op = Op.set;
        target = Name.word "in";
        lsb = 0;
        msb = 1;
        value = b'1' ∷ b'x' ∷ [];
        simultaneous = false;
      }
      ∷ record {
        t = 122000;
        op = Op.sample;
        target = Name.auto 0;
        lsb = 0;
        msb = 0;
        value = [];
        simultaneous = false;
      }
      ∷ [];
  hw_renderable = none;
  hw_reason = [];
}

abbrev or_nothing : Result CompileError Compiled → Compiled
or_nothing (ok c) = c
or_nothing (err e) = record { words = []; labels = [] }

compiles : compile_fitting stimulus ≡ ok (or_nothing (compile_fitting stimulus))
unfolding compile_fitting compile_events event_words set_words clock_words word free_words end_words
    free_runs runs_from open_unstarted
compiles = refl

compile_fitting-Holds_example :
    Holds stimulus (or_nothing (compile_fitting stimulus)).words 0 stimulus.events
    × ((or_nothing (compile_fitting stimulus)).labels ≡ sampled stimulus.events)
    × IsSorted time_of (or_nothing (compile_fitting stimulus)).words
compile_fitting-Holds_example =
    compile_fitting-Holds stimulus (or_nothing (compile_fitting stimulus)) compiles

abbrev image : Result Refused Compiled
image = compile_vec any_label always captures wrapper

abbrev image_of : Result Refused Compiled → Compiled
image_of (ok c) = c
image_of (err e) = record { words = []; labels = [] }

compiles_whole : image ≡ ok (image_of image)
unfolding compile_vec check_rules xilinx_unittests.Xvec.Structure.check_clocks
    xilinx_unittests.Xvec.check_clock xilinx_unittests.Xvec.Structure.check_events
    xilinx_unittests.Xvec.check_event xilinx_unittests.Xvec.check_op
    xilinx_unittests.Xvec.Timing.check_timing xilinx_unittests.Xvec.Timing.check_order
    xilinx_unittests.Xvec.Timing.check_groups xilinx_unittests.Xvec.Timing.group_from
    xilinx_unittests.Xvec.Timing.add_to_group xilinx_unittests.Xvec.Timing.check_group
    xilinx_unittests.StimCompile.Whole.check_free xilinx_unittests.Validate.Whole.validate
    xilinx_unittests.Validate.Whole.check_from xilinx_unittests.Validate.Report.check_header
    xilinx_unittests.Prelude.insert_by xilinx_unittests.Prelude.sort_by
    xilinx_unittests.StimCompile.Whole.check_fits clock_words compile_events compile_fitting
    end_words event_words free_words set_words word xilinx_unittests.Validate.Groups.all_lists
    xilinx_unittests.Validate.Groups.check_change xilinx_unittests.Validate.Groups.check_changes
    xilinx_unittests.Validate.Groups.check_edge xilinx_unittests.Validate.Groups.check_group
    xilinx_unittests.Validate.Groups.check_groups xilinx_unittests.Validate.Groups.check_inits
    xilinx_unittests.Validate.Groups.classes_from xilinx_unittests.Validate.Groups.classes_of
    xilinx_unittests.Validate.Groups.groups_of xilinx_unittests.Validate.Groups.lists_of
    xilinx_unittests.Validate.Races.bisect_left xilinx_unittests.Validate.Races.check_free_stops
    xilinx_unittests.Validate.Races.check_gsr_release xilinx_unittests.Validate.Races.nearest
    xilinx_unittests.Validate.Races.release_errors xilinx_unittests.Validate.Races.restart
    xilinx_unittests.Validate.Races.runs_errors xilinx_unittests.Validate.Races.stop_errors
    xilinx_unittests.Validate.Races.times xilinx_unittests.Validate.Report.check_map_hw
    xilinx_unittests.Validate.Report.check_reject xilinx_unittests.Validate.Report.insert_key
    xilinx_unittests.Validate.Report.sorted_keys xilinx_unittests.Validate.Whole.check_body
    xilinx_unittests.Validate.check_event_gaps xilinx_unittests.Validate.event_times
    xilinx_unittests.Validate.gap_reasons xilinx_unittests.Validate.insert_time
    xilinx_unittests.Validate.min_event_gap xilinx_unittests.Xvec.FreeClocks.edges
    xilinx_unittests.Xvec.FreeClocks.edges_of_runs xilinx_unittests.Xvec.FreeClocks.free_clock_edges
    free_runs open_unstarted runs_from
compiles_whole = refl

compile_vec-Holds_example :
    (check_rules any_label captures ≡ ok tt)
    × (always captures ≡ true)
    × (same_size captures wrapper ≡ true)
    × (same_wrapper captures wrapper ≡ true)
    × All (λ (k : Clock). is_free k.mode ≡ true → HasPhases captures k.name) captures.clocks
    × IsClean captures wrapper
    × Holds captures (image_of image).words 0 captures.events
    × ((image_of image).labels ≡ sampled captures.events)
    × IsSorted time_of (image_of image).words
compile_vec-Holds_example =
    compile_vec-Holds any_label always captures wrapper (image_of image) compiles_whole
