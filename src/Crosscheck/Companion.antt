-- ===== src/Crosscheck/Companion.antt =====
-- `companion_gap` and `verilator_unconfirmed` of tools/xut/crosscheck.py: whether the run of the rewritten
-- Verilog on iverilog confirms a pass of Verilator.
pub mod Confirmed
use xilinx_unittests.Prelude.{
  Bool, true, false, not, ◌&&◌, ◌||◌, if◌then◌else◌, ◌≡◌, refl, ap, ◌⊎◌, inl, inr, Bool-cases,
  arith, Option, none, some, List, [], ◌∷◌, Result, ok, ◌>>=◌, bind-ok, bind-intro,
}
use xilinx_unittests.Names.{Chars, chars_eq, chars_eq→≡}
use xilinx_unittests.Xtr.{Trace}
use xilinx_unittests.Xtr.Diff.{diff}
use xilinx_unittests.Crosscheck.{
  Status, View, has_run, has_trace, is_filled, is_present, reject_cfgs, rejection_diff, Assertion,
  Pair, pair, pair_of, common_cfgs, ran, given,
}

pub data Gap : Type 0 where
  missing transform_bug error stale : Gap

abbrev pub is_pass : Status → Bool
is_pass Status.pass = true
is_pass _ = false

-- Whether the two runs of iverilog differ on what both ran.
abbrev pub differs : View → View → Pair → Bool
differs iv vz p =
    is_filled (diff true true p.a p.b)
    || is_filled (rejection_diff iv vz (reject_cfgs (iv ∷ vz ∷ [])))

abbrev pub run_gap : View → Option View → Result Assertion (Option Gap)
run_gap vz none = ok (if is_pass vz.status then none else some error)
run_gap vz (some iv) =
    if has_trace vz && has_trace iv
    then (pair iv vz false true true >>= λ p.
        ok (if differs iv vz p then some transform_bug else none))
    else ok (if is_pass vz.status then none else some error)

abbrev pub is_missing : Option View → Bool
is_missing none = true
is_missing (some v) = elim v.status [
  | Status.not_run ↦ true
  | Status.pass ↦ false
  | Status.fail ↦ false
  | Status.error ↦ false
  | Status.skip ↦ false
]

unfoldable pub companion_gap : Option View → Option View → Result Assertion (Option Gap)
companion_gap none iv = ok (some missing)
companion_gap (some vz) iv =
    if is_missing (some vz)
    then ok (some missing)
    else if not (has_run vz.status)
    then ok (some error)
    else run_gap vz iv

-- `_stale`
abbrev pub is_clean : Option Bool → Bool
is_clean (some false) = true
is_clean _ = false

abbrev pub is_stamp : Option Chars → Bool
is_stamp none = false
is_stamp (some s) = is_filled s

abbrev pub same_stamp : Option Chars → Option Chars → Bool
same_stamp none none = true
same_stamp (some s) (some t) = chars_eq s t
same_stamp _ _ = false

abbrev pub is_unstamped : View → Bool
is_unstamped v = not (is_clean v.dirty) || not (is_stamp v.tree_hash) || not (is_stamp v.head)

abbrev pub is_stale : View → View → Bool
is_stale v ref =
    is_unstamped v
    || is_unstamped ref
    || not (same_stamp v.tree_hash ref.tree_hash)
    || not (same_stamp v.head ref.head)

abbrev pub is_stale_for : Option View → View → Bool
is_stale_for none ref = false
is_stale_for (some v) ref = is_stale v ref

-- `verilator_unconfirmed`, from the views that are on disk.
unfoldable pub verilator_unconfirmed :
    Option View → Option View → Option View → Result Assertion (Option Gap)
verilator_unconfirmed vl iv vz = if is_missing vz then ok (some missing) else elim vl [
  | none ↦ ok (some stale)
  | some l ↦ if is_stale_for vz l || is_stale_for iv l then ok (some stale) else companion_gap vz iv
]
