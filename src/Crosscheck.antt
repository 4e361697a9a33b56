-- ===== src/Crosscheck.antt =====
-- tools/xut/crosscheck.py: the results of a test against each other. A result that was read is a `View`;
-- what may be compared of two views, whether the comparison is evidence, and what confirms a result of the
-- rewritten Verilog.
pub mod Sims
pub mod Spots
pub mod Accounts
pub mod Agreement
pub mod Check
pub mod Classify
pub mod Companion
pub mod Findings
pub mod Golden
pub mod Points
pub mod Report
pub mod Tests
use xilinx_unittests.Prelude.{
  ℕ, suc, ◌+◌, String, Bool, true, false, not, ◌&&◌, ◌||◌, ◌==◌, ltb, if◌then◌else◌, Option, none,
  some, List, [], ◌∷◌, ◌++◌, length, Result, ok, err, ◌>>=◌,
}
use xilinx_unittests.Names.{Chars, member}
use xilinx_unittests.Xtr.{Dict, Trace, keys, lookup, put}
use xilinx_unittests.Xtr.Compare.{skipped}
use xilinx_unittests.Xtr.Diff.{is_xz, chars_lt}

pub data Status : Type 0 where
  pass fail error skip not_run : Status

pub record Config : Type 0 where
  pub cfg : Chars
  pub status : Status

-- The fields of a result.json that are used; `configs` is `none` for a view that was not read from one.
-- `selftest` and `repeats_differ` are those of its `hw`; `has_stamp` is whether it has a `tree_hash`, be it null.
pub record View : Type 0 where
  pub flow : String
  pub runner : String
  pub status : Status
  pub model_source : Option String
  pub trace : Option Trace
  pub configs : Option (List Config)
  pub dirty : Option Bool
  pub tree_hash : Option Chars
  pub head : Option Chars
  pub x_dependence : Bool
  pub selftest : Option String
  pub repeats_differ : Bool
  pub has_stamp : Bool

-- `status in RAN`
abbrev pub has_run : Status → Bool
has_run Status.pass = true
has_run Status.fail = true
has_run _ = false

abbrev pub ran_cfgs : List Config → List Chars
ran_cfgs [] = []
ran_cfgs (c ∷ cs) = let rest = ran_cfgs cs in if has_run c.status then c.cfg ∷ rest else rest

-- `View.ran`, a set; `none` means all.
abbrev pub ran : View → Option (List Chars)
ran v = elim v.configs [ none ↦ none | some cs ↦ some (ran_cfgs cs) ]

abbrev pub is_present : {A : Type 0} → Option A → Bool
is_present none = false
is_present (some a) = true

abbrev pub is_filled : {A : Type 0} → List A → Bool
is_filled [] = false
is_filled (x ∷ xs) = true

-- `_has_trace`
abbrev pub has_trace : View → Bool
has_trace v = is_present v.trace && elim (ran v) [ none ↦ true | some cfgs ↦ is_filled cfgs ]

-- `_cfg`: the text of a label before its first slash.
abbrev pub cfg_of : Chars → Chars
cfg_of [] = []
cfg_of (c ∷ l) = let rest = cfg_of l in if c == b'/' then [] else c ∷ rest

-- `_restrict`
module _ {A : Type 0} where
  abbrev pub of_cfgs : List Chars → Dict A → Dict A
  of_cfgs cfgs [] = []
  of_cfgs cfgs ((l, p) ∷ d) =
      let rest = of_cfgs cfgs d in if member (cfg_of l) cfgs then (l, p) ∷ rest else rest

  abbrev pub of_labels : List Chars → Dict A → Dict A
  of_labels ls [] = []
  of_labels ls ((l, p) ∷ d) =
      let rest = of_labels ls d in if member l ls then (l, p) ∷ rest else rest

abbrev pub restrict : Trace → Option (List Chars) → Trace
restrict t none = t
restrict t (some cfgs) =
    let samples = of_cfgs cfgs t.samples in
    record { header = t.header; samples = samples; prov = of_labels (keys samples) t.prov }

-- `_compared_bits`
module _ (expected a_x b_x : Bool) where
  abbrev pub is_compared : ℕ → ℕ → Bool
  is_compared ca cb =
      if expected then not (skipped b_x ca) else not (is_xz ca && not b_x || is_xz cb && not a_x)

  abbrev pub count_bits : Chars → Chars → ℕ
  count_bits [] vb = 0
  count_bits (ca ∷ va) [] = 0
  count_bits (ca ∷ va) (cb ∷ vb) =
      let rest = count_bits va vb in if is_compared ca cb then suc rest else rest

  abbrev pub count_port : Chars → Option Chars → ℕ
  count_port va none = 0
  count_port va (some vb) = if length va == length vb then count_bits va vb else 0

  abbrev pub count_ports : Dict Chars → Dict Chars → ℕ
  count_ports pb [] = 0
  count_ports pb ((p, va) ∷ pa) = count_port va (lookup p pb) + count_ports pb pa

  abbrev pub count_sample : Dict Chars → Option (Dict Chars) → ℕ
  count_sample pa none = 0
  count_sample pa (some pb) = count_ports pb pa

  abbrev pub count_samples : Dict (Dict Chars) → Dict (Dict Chars) → ℕ
  count_samples sb [] = 0
  count_samples sb ((l, pa) ∷ sa) = count_sample pa (lookup l sb) + count_samples sb sa

  unfoldable pub compared_bits : Trace → Trace → ℕ
  compared_bits ta tb = count_samples tb.samples ta.samples

abbrev pub minus : List Chars → List Chars → List Chars
minus [] other = []
minus (c ∷ cs) other = let rest = minus cs other in if member c other then rest else c ∷ rest

abbrev pub both : List Chars → List Chars → List Chars
both [] other = []
both (c ∷ cs) other = let rest = both cs other in if member c other then c ∷ rest else rest

abbrev pub cfgs_of : List Chars → List Chars
cfgs_of [] = []
cfgs_of (l ∷ ls) = cfg_of l ∷ cfgs_of ls

abbrev pub reject_agreement : Trace → Trace → Option (List Chars) → Bool
reject_agreement ta tb none = false
reject_agreement ta tb (some common) =
    is_filled (minus common (cfgs_of (keys ta.samples ++ keys tb.samples)))

-- `_outcomes`: of each configuration that ran, whether it rejects.
abbrev pub outcomes_onto : Dict Bool → List Config → Dict Bool
outcomes_onto d [] = d
outcomes_onto d (c ∷ cs) = elim c.status [
  | Status.pass ↦ outcomes_onto (put c.cfg true d) cs
  | Status.fail ↦ outcomes_onto (put c.cfg false d) cs
  | Status.error ↦ outcomes_onto d cs
  | Status.skip ↦ outcomes_onto d cs
  | Status.not_run ↦ outcomes_onto d cs
]

abbrev pub outcomes : View → Dict Bool
outcomes v = elim v.configs [ none ↦ [] | some cs ↦ outcomes_onto [] cs ]

-- `_reject_cfgs`
abbrev pub all_ran : List View → List Chars
all_ran [] = []
all_ran (v ∷ vs) =
    let rest = all_ran vs in
    if has_trace v then elim (ran v) [ none ↦ rest | some cfgs ↦ cfgs ++ rest ] else rest

abbrev pub all_sampled : List View → List Chars
all_sampled [] = []
all_sampled (v ∷ vs) =
    let rest = all_sampled vs in
    if has_trace v
    then elim v.trace [ none ↦ rest | some t ↦ cfgs_of (keys t.samples) ++ rest ]
    else rest

abbrev pub reject_cfgs : List View → List Chars
reject_cfgs vs = minus (all_ran vs) (all_sampled vs)

-- `_rejection_diff`: the configuration, and whether either side rejects it.
pub record Rejection : Type 0 where
  pub cfg : Chars
  pub a_rejects : Bool
  pub b_rejects : Bool

abbrev pub insert_cfg : Chars → List Chars → List Chars
insert_cfg c [] = c ∷ []
insert_cfg c (d ∷ ds) = let rest = insert_cfg c ds in if chars_lt d c then d ∷ rest else c ∷ d ∷ ds

abbrev pub sorted_cfgs : List Chars → List Chars
sorted_cfgs [] = []
sorted_cfgs (c ∷ cs) = insert_cfg c (sorted_cfgs cs)

abbrev pub rejection_at : Chars → Option Bool → Option Bool → List Rejection
rejection_at c (some true) (some false) =
    record { cfg = c; a_rejects = true; b_rejects = false } ∷ []
rejection_at c (some false) (some true) =
    record { cfg = c; a_rejects = false; b_rejects = true } ∷ []
rejection_at c a b = []

abbrev pub rejections_at : Dict Bool → Dict Bool → List Chars → List Rejection
rejections_at oa ob [] = []
rejections_at oa ob (c ∷ cs) = rejection_at c (lookup c oa) (lookup c ob) ++ rejections_at oa ob cs

unfoldable pub rejection_diff : View → View → List Chars → List Rejection
rejection_diff a b reject =
    let oa = outcomes a in
    let ob = outcomes b in
    rejections_at oa ob (sorted_cfgs (both (both (keys oa) reject) (keys ob)))

-- `_pair`: both traces on the configurations that both ran, and whether comparing them is evidence. It
-- asserts that both are there.
pub data Assertion : Type 0 where
  no_trace : Assertion

pub record Pair : Type 0 where
  pub a : Trace
  pub b : Trace
  pub evidence : Bool

abbrev pub common_cfgs : Option (List Chars) → Option (List Chars) → Option (List Chars)
common_cfgs ra none = ra
common_cfgs none (some rb) = some rb
common_cfgs (some ra) (some rb) = some (both ra rb)

abbrev pub is_shared : Option (List Chars) → Bool
is_shared none = true
is_shared (some cfgs) = is_filled cfgs

abbrev pub pair_of : Bool → Bool → Bool → Option (List Chars) → Trace → Trace → Pair
pair_of expected a_x b_x common a b =
    let ta = restrict a common in
    let tb = restrict b common in
    record {
      a = ta;
      b = tb;
      evidence =
          is_shared common
          && (ltb 0 (compared_bits expected a_x b_x ta tb) || reject_agreement ta tb common);
    }

abbrev pub given : Option Trace → Result Assertion Trace
given none = err Assertion.no_trace
given (some t) = ok t

unfoldable pub pair : View → View → Bool → Bool → Bool → Result Assertion Pair
unfolding compared_bits
pair a b expected a_x b_x = do
  ta ← given a.trace
  tb ← given b.trace
  ok (pair_of expected a_x b_x (common_cfgs (ran a) (ran b)) ta tb)
