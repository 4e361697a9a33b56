-- ===== src/Validate/Whole/Clean.antt =====
-- What `validate` promises of a stimulus that it finds no error in.
use xilinx_unittests.Prelude.{
  ℕ, ◌≤◌, Bool, true, false, not, ◌&&◌, ◌==◌, ltb, ◌≡◌, inl, inr, refl, ◌∙◌, ap, arith, Bool-cases,
  none, String, List, [], ◌∷◌, any, map, All, append-none, eq_iff, Result, ok, err, bind-ok,
  ok-injective,
}
use xilinx_unittests.Xvec.{Name, Header, Vec, Error}
use xilinx_unittests.Xvec.Structure.{check_rules, checkable}
use xilinx_unittests.Dut.{DutMap, Vector, of}
use xilinx_unittests.Validate.{min_settle_ps, min_sep_ps, roc_width_ps, sep_of}
use xilinx_unittests.Validate.Races.{RaceError, distance}
use xilinx_unittests.Validate.Races.Release.{check_gsr_release_iff}
use xilinx_unittests.Validate.Whole.Attributes.{attr_problems-none}
use xilinx_unittests.Validate.Report.{
  Problem, Report, nothing, ◌⊕◌, problems, value_of, check_header, is_nil, is_reject, passes,
}
use xilinx_unittests.Validate.Groups.{is_sample, check_groups, groups_of, check_inits}
use xilinx_unittests.Validate.Whole.{
  file_report, idle, timed, context, check_body, check_from, wrong_wrapper, validate,
}
use xilinx_unittests.Validate.Groups.Clean.{
  IsCleanGroup, problem_if-none, ⊕-none, check_groups-IsCleanGroup,
}

-- What a report with no error says of a stimulus and a wrapper.
pub record IsClean (v : Vec) (m : DutMap) : Type 0 where
  pub same_nin : v.header.nin ≡ m.nin
  pub same_nout : v.header.nout ≡ m.nout
  pub same_nclk : v.header.nclk ≡ m.nclk
  pub same_prim : v.header.prim ≡ m.prim
  pub same_cfg : v.header.cfg ≡ m.cfg
  pub same_attrs : (k : String) → value_of k v.header.attrs ≡ value_of k m.attrs
  pub long_settle : min_settle_ps ≤ v.header.settle_ps
  pub long_sep : min_sep_ps ≤ sep_of v.header
  pub clear_of_release : All (λ e. sep_of v.header ≤ distance e.t roc_width_ps) (timed v)
  pub has_sample : is_reject v.header.expect ≡ false → any is_sample v.events ≡ true
  pub groups : All (λ g. IsCleanGroup (of m Vector.in_vec) g.1) (groups_of (timed v))

-- The part of it that is about the header.
pub record IsFitting (h : Header) (m : DutMap) : Type 0 where
  pub nin : h.nin ≡ m.nin
  pub nout : h.nout ≡ m.nout
  pub nclk : h.nclk ≡ m.nclk
  pub prim : h.prim ≡ m.prim
  pub cfg : h.cfg ≡ m.cfg
  pub attrs : (k : String) → value_of k h.attrs ≡ value_of k m.attrs
  pub settle : min_settle_ps ≤ h.settle_ps

not-false : (b : Bool) → not b ≡ false → b ≡ true
not-false true h = refl
not-false false h = cc

long_enough : (n k : ℕ) → ltb n k ≡ false → k ≤ n
long_enough n k h = ground arith

pub check_header-none : (h : Header) (m : DutMap) → (check_header h m).errors ≡ [] → IsFitting h m
unfolding check_header
check_header-none h m e =
    let (h6, settle) = (append-none _ _).0 e in
    let (h5, attrs) = (append-none _ _).0 h6 in
    let (h4, cfg) = (append-none _ _).0 h5 in
    let (h3, prim) = (append-none _ _).0 h4 in
    let (h2, nclk) = (append-none _ _).0 h3 in
    let (nin, nout) = (append-none _ _).0 h2 in
    record {
      nin = is_same h.nin m.nin (problem_if-none _ Problem.wrong_nin nin);
      nout = is_same h.nout m.nout (problem_if-none _ Problem.wrong_nout nout);
      nclk = is_same h.nclk m.nclk (problem_if-none _ Problem.wrong_nclk nclk);
      prim = (eq_iff h.prim m.prim).0 (not-false _ (problem_if-none _ Problem.wrong_prim prim));
      cfg = (eq_iff h.cfg m.cfg).0 (not-false _ (problem_if-none _ Problem.wrong_cfg cfg));
      attrs = attr_problems-none h.attrs m.attrs attrs;
      settle = long_enough h.settle_ps min_settle_ps (problem_if-none _ _ settle);
    }
  where
    is_same : (a b : ℕ) → not (a == b) ≡ false → a ≡ b
    is_same a b h = ground arith

stops : (l : List Problem) (b : Bool) → (not (is_nil l) && b) ≡ true → l ≡ [] → ⊥
stops [] b h q = cc
stops (p ∷ l) b h q = cc

-- The part of it that is about the events.
record IsTimely (v : Vec) (m : DutMap) : Type 0 where
  sep : min_sep_ps ≤ sep_of v.header
  release : All (λ e. sep_of v.header ≤ distance e.t roc_width_ps) (timed v)
  has_sample : is_reject v.header.expect ≡ false → any is_sample v.events ≡ true
  groups : All (λ g. IsCleanGroup (of m Vector.in_vec) g.1) (groups_of (timed v))

races-none : (rs : List RaceError) → map Problem.race rs ≡ [] → rs ≡ []
races-none [] h = refl
races-none (r ∷ rs) h = cc

check_body-IsTimely :
    (v : Vec) (m : DutMap) (gap : ℕ) (r : Report)
    → check_body v m gap ≡ ok r
    → r.errors ≡ []
    → IsTimely v m
unfolding check_body
check_body-IsTimely v m gap r h q =
    let (inits, first, h1) = bind-ok (check_inits (of m Vector.in_vec) v.events) _ h in
    let (groups, later, h2) =
      bind-ok (check_groups (context v m gap) none (groups_of (timed v)) (idle v.clocks)) _ h1 in
    let made = ap (λ (x : Report). x.errors) (ok-injective _ r h2) ∙ q in
    let (file, grouped) = ⊕-none (file_report v m inits) groups made in
    let (f7, samples) = (append-none _ _).0 file in
    let (f6, rejects) = (append-none _ _).0 f7 in
    let (f5, release) = (append-none _ _).0 f6 in
    let (f4, started) = (append-none _ _).0 f5 in
    let (f3, stops) = (append-none _ _).0 f4 in
    let (f2, gaps) = (append-none _ _).0 f3 in
    let (sep, mapped) = (append-none _ _).0 f2 in
    record {
      sep = long_enough (sep_of v.header) min_sep_ps (problem_if-none _ Problem.sep_too_small sep);
      release = (check_gsr_release_iff (timed v) (sep_of v.header)).0 (races-none _ release);
      has_sample = λ k. sampled (rw k at (problem_if-none _ Problem.no_samples samples));
      groups =
          check_groups-IsCleanGroup (context v m gap) none (groups_of (timed v)) (idle v.clocks)
            groups later grouped;
    }
  where
    sampled : (not false && not (any is_sample v.events)) ≡ false → any is_sample v.events ≡ true
    sampled k = not-false (any is_sample v.events) k

check_from-IsClean :
    (s : Report) (v : Vec) (m : DutMap) (gap : ℕ) (r : Report)
    → check_from s v m gap ≡ ok r
    → r.errors ≡ []
    → (s.errors ≡ []) × IsClean v m
unfolding check_from
check_from-IsClean s v m gap r h q =
    let heads = s ⊕ check_header v.header m in
    elim (Bool-cases (not (passes heads) && wrong_wrapper v m)) [
      | inl e ↦
          let same = ok-injective heads r (rw e at h) in
          absurd (stops heads.errors (wrong_wrapper v m) e (ap (λ (x : Report). x.errors) same ∙ q))
      | inr e ↦
          let (b, body, made) = bind-ok (check_body v m gap) _ (rw e at h) in
          let both = ⊕-none heads b (ap (λ (x : Report). x.errors) (ok-injective _ r made) ∙ q) in
          let (before, header) = ⊕-none s (check_header v.header m) both.0 in
          let fits = check_header-none v.header m header in
          let timely = check_body-IsTimely v m gap b body both.1 in
          (
            before,
            record {
              same_nin = fits.nin;
              same_nout = fits.nout;
              same_nclk = fits.nclk;
              same_prim = fits.prim;
              same_cfg = fits.cfg;
              same_attrs = fits.attrs;
              long_settle = fits.settle;
              long_sep = timely.sep;
              clear_of_release = timely.release;
              has_sample = timely.has_sample;
              groups = timely.groups;
            },
          )
    ]

pub nil_of {ℓ} : {A : Type ℓ} → (l : List A) → not (is_nil l) ≡ false → l ≡ []
nil_of [] h = refl
nil_of (x ∷ l) h = cc

pub passes-none : (r : Report) → not (passes r) ≡ false → r.errors ≡ []
passes-none r h = nil_of r.errors h

-- Where `validate` finds no error: the stimulus passes the rules of the format and survives a write and read
-- as text; it is for the wrapper's primitive, configuration and attributes, and as wide as its vectors; it
-- settles long enough, separates by the minimum at least, and keeps every event but the initialisation, and
-- every edge of a free clock, that far from the release of GSR; it samples something unless it is to be rejected; and at each time no sample is with a change and,
-- where not all changes are marked as simultaneous, no change is beside an edge, a global signal or a set of
-- an async or gate bit.
pub validate-IsClean :
    (is_label : Name → Bool) (survives : Vec → Bool) (v : Vec) (m : DutMap) (gap : ℕ) (r : Report)
    → validate is_label survives v m gap ≡ ok r
    → r.errors ≡ []
    → (check_rules is_label v ≡ ok tt) × (survives v ≡ true) × IsClean v m
unfolding validate
validate-IsClean is_label survives v m gap r h q = split (check_rules is_label v) refl
  where
    split :
        (c : Result Error (Unit {0}))
        → check_rules is_label v ≡ c
        → (check_rules is_label v ≡ ok tt) × (survives v ≡ true) × IsClean v m
    split (err e) s =
        let bad =
          check_from-IsClean (problems (Problem.structure e ∷ [])) (checkable is_label v) m gap r
            (rw s at h) q in
        cc bad.0
    split (ok u) s = elim (Bool-cases (survives v)) [
      | inl k ↦ (s, k, (check_from-IsClean nothing v m gap r (rw (s, k) at h) q).1)
      | inr k ↦
          let bad =
            check_from-IsClean (problems (Problem.no_round_trip ∷ [])) (checkable is_label v) m gap
              r (rw (s, k) at h) q in
          cc bad.0
    ]
