-- ===== src/Crosscheck/Classify/Tests.antt =====
-- The views of a test that agree and of one that do not, and the theorems on them.
use xilinx_unittests.Prelude.{
  String, true, false, ◌≡◌, refl, none, some, List, [], ◌∷◌, Result, ok, map,
}
use xilinx_unittests.Names.{Chars}
use xilinx_unittests.Xtr.{Trace}
use xilinx_unittests.Golden.{codes}
use xilinx_unittests.Crosscheck.{Status, View}
use xilinx_unittests.Crosscheck.Findings.{Class}
use xilinx_unittests.Crosscheck.Points.{Compared, Found}
use xilinx_unittests.Crosscheck.Classify.{Failure, classify}
use xilinx_unittests.Crosscheck.Classify.Silent.{Silent, classify-Silent}

abbrev trace_of : Chars → Trace
trace_of value = record {
  header = [];
  samples = (codes "base/S0", (codes "Q", value) ∷ []) ∷ [];
  prov = (codes "base/S0", (codes "Q", codes "doc:p3") ∷ []) ∷ [];
}

abbrev pub view_of : String → String → Chars → View
view_of flow runner value = record {
  flow = flow;
  runner = runner;
  status = Status.pass;
  model_source = some "unisim";
  trace = some (trace_of value);
  configs = some (record { cfg = codes "base"; status = Status.pass } ∷ []);
  dirty = some false;
  tree_hash = some (codes "5f3a");
  head = some (codes "01ac");
  x_dependence = false;
  selftest = none;
  repeats_differ = false;
  has_stamp = true;
}

abbrev agreeing : List View
agreeing =
    view_of "rtl" "python" (codes "1x")
    ∷ view_of "rtl" "xsim" (codes "1x")
    ∷ view_of "rtl" "verilator" (codes "10")
    ∷ view_of "synth" "xsim" (codes "1x")
    ∷ []

abbrev pub as_is : Chars → Chars
as_is s = s

abbrev pub test_id : Chars
test_id = codes "7series.FDRE.sim.basic"

abbrev paired_as : String → String → String → String → Compared
paired_as f r g s = record { a = (f, r); b = (g, s); evidence = true }

abbrev found : Found
found = record {
  findings = [];
  issues = [];
  pairs =
      paired_as "rtl" "verilator" "rtl" "xsim"
      ∷ paired_as "rtl" "python" "rtl" "xsim"
      ∷ paired_as "rtl" "python" "rtl" "verilator"
      ∷ paired_as "rtl" "xsim" "synth" "xsim"
      ∷ [];
}

agreement : classify as_is test_id agreeing [] ≡ ok found
unfolding classify xilinx_unittests.Xtr.lookup xilinx_unittests.Xtr.put
agreement = refl

classify-Silent_example : Silent agreeing
classify-Silent_example = classify-Silent as_is test_id agreeing [] found agreement refl refl

-- Both simulators differ from the golden trace at one bit, which a document decides.
abbrev disagreeing : List View
disagreeing =
    view_of "rtl" "python" (codes "11")
    ∷ view_of "rtl" "xsim" (codes "10")
    ∷ view_of "rtl" "verilator" (codes "10")
    ∷ []

abbrev classes : Result Failure Found → List Class
classes (Result.err e) = []
classes (ok f) = map (λ g. g.cls) f.findings

disagreement : classes (classify as_is test_id disagreeing []) ≡ Class.doc_vs_model ∷ []
unfolding classify xilinx_unittests.Xtr.lookup xilinx_unittests.Xtr.put
    xilinx_unittests.Xtr.Prov.bit_prov
disagreement = refl

-- One of them does.
abbrev diverging : List View
diverging =
    view_of "rtl" "python" (codes "11")
    ∷ view_of "rtl" "xsim" (codes "10")
    ∷ view_of "rtl" "iverilog" (codes "11")
    ∷ []

divergence : classes (classify as_is test_id diverging []) ≡ Class.sim_divergence ∷ []
unfolding classify xilinx_unittests.Xtr.lookup xilinx_unittests.Xtr.put
divergence = refl
