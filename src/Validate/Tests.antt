-- ===== src/Validate/Tests.antt =====
-- A free clock that stops, and the theorems on what may race at it.
use mathlib.Core.List.Memᴰ as MemD
use xilinx_unittests.Prelude.{
  ℕ, false, ◌+◌, ◌*◌, ◌≤◌, ◌<◌, ◌≡◌, ◌↔◌, refl, arith, none, some, [], ◌∷◌, All,
}
use xilinx_unittests.Xvec.{Name, Op, Mode, Clock, Event, Vec}
use xilinx_unittests.Xvec.FreeClocks.{Run, high_ps, free_runs, runs_from, open_unstarted}
use xilinx_unittests.Validate.{roc_width_ps}
use xilinx_unittests.Validate.Races.{
  distance, nearest, bisect_left, check_gsr_release, check_free_stops, runs_errors, stop_errors,
  restart,
}
use xilinx_unittests.Validate.Nearest.{IsNearest, nearest-IsNearest}
use xilinx_unittests.Validate.Races.Release.{check_gsr_release_iff}
use xilinx_unittests.Validate.Races.Stops.{check_free_stops-low}

abbrev clock : Clock
clock = record {
  name = Name.clk 0;
  index = 0;
  period = 10000;
  phase = 0;
  duty = 50;
  mode = Mode.free;
}

abbrev at_time : ℕ → Op → Event
at_time t op = record {
  t = t;
  op = op;
  target = Name.clk 0;
  lsb = 0;
  msb = 0;
  value = [];
  simultaneous = false;
}

abbrev stops : Vec
stops = record {
  header = record {
    prim = "FDRE";
    cfg = "base";
    nin = 3;
    nout = 1;
    nclk = 1;
    settle_ps = 120000;
    seed = 7;
    async_sep_ps = none;
    expect = none;
    illegal = none;
    attrs = [];
  };
  clocks = clock ∷ [];
  events = at_time 120000 Op.clock_start ∷ at_time 147000 Op.clock_stop ∷ [];
  hw_renderable = none;
  hw_reason = [];
}

abbrev stopped_run : Run
stopped_run = record { clock = clock; start = 120000; stop = some 147000 }

no_stop_error : check_free_stops stops ≡ []
unfolding check_free_stops runs_errors stop_errors restart free_runs runs_from open_unstarted
no_stop_error = refl

one_run : free_runs stops ≡ stopped_run ∷ []
unfolding free_runs runs_from open_unstarted
one_run = refl

check_free_stops-low_example : 120000 + 2 * 10000 + high_ps clock < 147000
check_free_stops-low_example =
    check_free_stops-low stops stopped_run 147000 no_stop_error (rw one_run (MemD.head refl)) refl
      (omega arith) 2 (omega arith)

nearest_edge : nearest (1000 ∷ 6000 ∷ 11000 ∷ []) 8000 ≡ some (2000, 6000)
unfolding nearest bisect_left
nearest_edge = refl

nearest-IsNearest_example :
    IsNearest 8000 (1000 ∷ 6000 ∷ 11000 ∷ []) (nearest (1000 ∷ 6000 ∷ 11000 ∷ []) 8000)
nearest-IsNearest_example =
    nearest-IsNearest (1000 ∷ 6000 ∷ 11000 ∷ []) 8000
      ((omega arith, (omega arith, tt)), ((omega arith, tt), (tt, tt)))

check_gsr_release_iff_example :
    (check_gsr_release stops.events 1000 ≡ [])
    ↔ All (λ e. 1000 ≤ distance e.t roc_width_ps) stops.events
check_gsr_release_iff_example = check_gsr_release_iff stops.events 1000
