-- ===== src/Crosscheck/Tests.antt =====
-- Two runs of iverilog and one of Verilator, and the theorems on them.
use xilinx_unittests.Prelude.{
  true, false, ◌≡◌, ◌≢◌, refl, arith, ◌↔◌, ◌⊎◌, Option, none, some, [], ◌∷◌, ok,
}
use xilinx_unittests.Names.{Chars}
use xilinx_unittests.Xtr.{Trace, keys, lookup}
use xilinx_unittests.Xtr.Diff.{diff}
use xilinx_unittests.Golden.{codes}
use xilinx_unittests.Crosscheck.{Status, Config, View, Assertion, compared_bits}
use xilinx_unittests.Crosscheck.Agreement.{ShowsSample, compared_bits-ShowsSample}
use xilinx_unittests.Crosscheck.Companion.{Gap, companion_gap}
use xilinx_unittests.Crosscheck.Companion.Confirmed.{companion_gap-Gives}
use xilinx_unittests.Crosscheck.Findings.{Class, Finding, Entry, new_finding, mark_from}
use xilinx_unittests.Crosscheck.Report.{result_issues}
use xilinx_unittests.Crosscheck.Report.Explained.{Explained}
use xilinx_unittests.Crosscheck.Report.Companions.{CompanionExplained}
use xilinx_unittests.Crosscheck.Report.Issues.{NoConfigError, result_issues_iff}
use xilinx_unittests.Crosscheck.Findings.Marks.{IsMarked, mark_from-IsMarked}

abbrev trace_of : Chars → Trace
trace_of value = record {
  header = [];
  samples = (codes "base/S0", (codes "Q", value) ∷ []) ∷ [];
  prov = [];
}

abbrev view_of : Trace → View
view_of t = record {
  flow = "rtl";
  runner = "iverilog";
  status = Status.pass;
  model_source = some "unisim";
  trace = some t;
  configs = some (record { cfg = codes "base"; status = Status.pass } ∷ []);
  dirty = some false;
  tree_hash = some (codes "5f3a");
  head = some (codes "01ac");
  x_dependence = false;
  selftest = none;
  repeats_differ = false;
  has_stamp = true;
}

abbrev shown : Trace
shown = trace_of (b'1' ∷ b'x' ∷ [])

compared_bits-ShowsSample_example :
    (l : Chars) × ShowsSample true true (lookup l shown.samples) (lookup l shown.samples)
unfolding diff compared_bits lookup
compared_bits-ShowsSample_example =
    compared_bits-ShowsSample true true shown shown (refl, tt) ((refl, tt), tt) (refl, tt) refl
      (omega arith)

abbrev passing : View
passing = view_of shown

companion_gap-Gives_example :
    (g : Option Gap) × (companion_gap (some passing) (some passing) ≡ ok g)
companion_gap-Gives_example = companion_gap-Gives (some passing) (some passing)

abbrev divergence : Finding Chars
divergence =
    new_finding Class.sim_divergence (codes "7series.FDRE.sim.basic") "rtl" (some "unisim")
      ("iverilog" ∷ "xsim" ∷ []) (codes "S0 Q" ∷ [])

abbrev entry : Entry
entry = record {
  finding = codes "FDRE-sim-divergence-sim-basic";
  cls = Class.sim_divergence;
  runners = "iverilog" ∷ "xsim" ∷ [];
  model_sources = none;
  flows = none;
}

abbrev as_is : Chars → Chars
as_is s = s

abbrev wanted : Chars
wanted = codes "FDRE-sim-divergence-sim-basic"

mark_from-IsMarked_example :
    IsMarked as_is wanted divergence (entry ∷ []) (mark_from as_is wanted divergence (entry ∷ []))
mark_from-IsMarked_example = mark_from-IsMarked as_is wanted divergence (entry ∷ [])

abbrev failing : View
failing = record passing { status = Status.fail }

result_issues_iff_example : (result_issues failing (divergence ∷ []) true none ≡ []) ↔ (
    NoConfigError failing.configs
    × (failing.status ≢ Status.error)
    × ((true ≡ false)
        ⊎ (failing.status ≢ Status.fail)
        ⊎ Explained failing (divergence ∷ [])
        ⊎ CompanionExplained failing (divergence ∷ []) none))
result_issues_iff_example = result_issues_iff failing (divergence ∷ []) true none
