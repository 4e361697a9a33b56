-- ===== src/StimGen/Commands.antt =====
-- What a generator does with a builder: a sequence of calls.
use xilinx_unittests.Prelude.{ℕ, String, Bool, Option, List, [], ◌∷◌, Result, ok, ◌>>=◌}
use xilinx_unittests.Xvec.{Name}
use xilinx_unittests.StimGen as Gen
use xilinx_unittests.StimGen.{Builder, Value, Fault}

pub data Command : Type 0 where
  init set : List (String × Value) → Command
  async_ : String → Value → Command
  glbl : Name → ℕ → Command
  edge : String → Bool → Command
  sample : Option Name → Command
  cycle : Option String → ℕ → Bool → Command
  wait : ℕ → Command
  enter leave : Command

module _ (is_label : Name → Bool) where
  unfoldable pub step : Command → Builder → Result Fault Builder
  step (init ports) b = Gen.init ports b
  step (set ports) b = Gen.set ports b
  step (async_ p v) b = Gen.async_ p v b
  step (glbl s v) b = Gen.glbl s v b
  step (edge p r) b = Gen.edge p r b
  step (sample l) b = Gen.sample is_label l b
  step (cycle p n s) b = Gen.cycle is_label p n s b
  step (wait ps) b = Gen.wait ps b
  step enter b = Gen.enter b
  step leave b = Gen.leave b

  unfoldable pub generate : List Command → Builder → Result Fault Builder
  generate [] b = ok b
  generate (c ∷ cs) b = step c b >>= generate cs
