-- ===== src/StimCompile/Whole/Image.antt =====
-- What is compiled: clean stimuli for the wrapper, each into an image that holds it.
use xilinx_unittests.Prelude.{
  ℕ, Bool, true, false, not, ◌||◌, ◌-◌, ◌==◌, ◌<◌, ◌≡◌, inl, inr, arith, Bool-cases, some, List, [],
  ◌∷◌, ok, bind-ok, check-ok, refuse, refuse-ok, map_err-ok, All, IsSorted,
}
use xilinx_unittests.Xvec.{Name, Clock, Vec, is_free, clock}
use xilinx_unittests.Xvec.FreeClocks.{high_ps}
use xilinx_unittests.Xvec.Structure.{check_rules}
use xilinx_unittests.Dut.{DutMap}
use xilinx_unittests.Validate.{min_sep_ps}
use xilinx_unittests.Validate.Report.{passes}
use xilinx_unittests.Validate.Whole.{validate}
use xilinx_unittests.Validate.Whole.Clean.{IsClean, passes-none, validate-IsClean}
use xilinx_unittests.StimCompile.{
  Compiled, CompileError, clock_words, compile_fitting, time_of, or_key_error,
}
use xilinx_unittests.StimCompile.Encoding.{or_key_error-ok}
use xilinx_unittests.StimCompile.Samples.{Holds, sampled, compile_fitting-Holds}
use xilinx_unittests.StimCompile.Whole.{
  Refused, from_rules, from_words, from_report, check_free, same_size, same_wrapper, check_fits,
  compile_vec,
}

-- A clock by that name, with a high and a low phase.
abbrev pub HasPhases : Vec → Name → Type 0
HasPhases v n = (c : Clock) × (clock v.clocks n ≡ some c) × (0 < high_ps c) × (high_ps c < c.period)

phases_of :
    (high period : ℕ) → (high == 0 || period - high == 0) ≡ false → (0 < high) × (high < period)
phases_of high period h = (ground arith, ground arith)

clock_words-HasPhases :
    (v : Vec) (n : Name) (t : ℕ) (ws : List ℕ) → clock_words v n t ≡ ok ws → HasPhases v n
unfolding clock_words
clock_words-HasPhases v n t ws h =
    let (c, found, h1) = bind-ok (or_key_error (clock v.clocks n)) _ h in
    let bad = high_ps c == 0 || c.period - high_ps c == 0 in
    let (phases, h2) = check-ok (refuse bad CompileError.empty_phase) _ h1 in
    let (some_high, some_low) =
      phases_of (high_ps c) c.period (refuse-ok bad CompileError.empty_phase phases) in
    (c, or_key_error-ok (clock v.clocks n) c found, some_high, some_low)

check_free-HasPhases :
    (v : Vec) (cs : List Clock)
    → check_free v cs ≡ ok tt
    → All (λ (c : Clock). is_free c.mode ≡ true → HasPhases v c.name) cs
unfolding check_free
check_free-HasPhases v [] h = tt
check_free-HasPhases v (c ∷ cs) h = elim (Bool-cases (is_free c.mode)) [
  | inl q ↦
      let (ws, made, rest) =
        bind-ok (from_words (clock_words v c.name 0)) (λ x. check_free v cs) (rw q at h) in
      (
        λ f.
            clock_words-HasPhases v c.name 0 ws
              (map_err-ok Refused.words (clock_words v c.name 0) ws made),
        check_free-HasPhases v cs rest,
      )
  | inr q ↦ (λ f. cc (f, q), check_free-HasPhases v cs (rw q at h))
]

-- A stimulus is compiled only where it passes the rules of the format, survives a write and read as text,
-- is for the wrapper's primitive and configuration and as wide as its vectors, each of its free clocks has
-- a high and a low phase, and it is clean for the wrapper. Then the words of each event are in the image,
-- the labels are the samples' in their order, and the words come in the order of their time field.
pub compile_vec-Holds :
    (is_label : Name → Bool) (survives : Vec → Bool) (v : Vec) (m : DutMap) (c : Compiled)
    → compile_vec is_label survives v m ≡ ok c
    → (check_rules is_label v ≡ ok tt)
      × (survives v ≡ true)
      × (same_size v m ≡ true)
      × (same_wrapper v m ≡ true)
      × All (λ (k : Clock). is_free k.mode ≡ true → HasPhases v k.name) v.clocks
      × IsClean v m
      × Holds v c.words 0 v.events
      × (c.labels ≡ sampled v.events)
      × IsSorted time_of c.words
unfolding compile_vec check_fits
compile_vec-Holds is_label survives v m c h =
    let (fits, made) = check-ok (check_fits is_label survives v m) _ h in
    let (rules, h1) = check-ok (from_rules (check_rules is_label v)) _ fits in
    let (text, h2) = check-ok (refuse (not (survives v)) _) _ h1 in
    let (size, h3) = check-ok (refuse (not (same_size v m)) _) _ h2 in
    let (wrapper, h4) = check-ok (refuse (not (same_wrapper v m)) _) _ h3 in
    let (free, h5) = check-ok (check_free v v.clocks) _ h4 in
    let (r, report, valid) =
      bind-ok (from_report (validate is_label survives v m min_sep_ps)) _ h5 in
    let no_errors = passes-none r (refuse-ok (not (passes r)) (Refused.invalid r.errors) valid) in
    let validated =
      map_err-ok Refused.key_error (validate is_label survives v m min_sep_ps) r report in
    let (held, labels, in_order) =
      compile_fitting-Holds v c (map_err-ok Refused.words (compile_fitting v) c made) in
    let (by_rules, by_text, clean) =
      validate-IsClean is_label survives v m min_sep_ps r validated no_errors in
    (
      map_err-ok Refused.malformed (check_rules is_label v) tt rules,
      kept (survives v) (refuse-ok _ _ text),
      kept (same_size v m) (refuse-ok _ _ size),
      kept (same_wrapper v m) (refuse-ok _ _ wrapper),
      check_free-HasPhases v v.clocks free,
      clean,
      held,
      labels,
      in_order,
    )
  where
    kept : (b : Bool) → not b ≡ false → b ≡ true
    kept b k = ground arith
