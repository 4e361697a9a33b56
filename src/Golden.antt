-- ===== src/Golden.antt =====
-- tools/xut/golden.py: a stimulus replayed through a golden model. The model is whatever implements the
-- API of models/xut_models/base.py, a record of operations. The replay is one function over the time groups
-- of the stimulus, and `steps` in a module below is its independent description.
pub mod Decimal
pub mod Model
pub mod Ports
pub mod Replay
use Prim.Native.Char.{code}
use Prim.Native.String
use xilinx_unittests.Prelude.{
  ℕ, zero, suc, ◌+◌, ◌-◌, ◌/◌, ◌%◌, String, ltb, if◌then◌else◌, List, [], ◌∷◌, ◌++◌,
}
use xilinx_unittests.Names.{Chars}
use xilinx_unittests.Xvec.{Name}

-- The characters of a text.
abbrev pub codes : String → Chars
codes String.[] = []
codes (String.◌∷◌ c s) = code c ∷ codes s

-- `str(n)`, on fuel; `n + 1` rounds are enough, since a round divides by ten.
unfoldable pub digits_onto : ℕ → ℕ → Chars → Chars
digits_onto zero n s = s
digits_onto (suc f) n s =
    let rest = digits_onto f (n / 10) ((b'0' + n % 10) ∷ s) in
    if ltb n 10 then (b'0' + n) ∷ s else rest

abbrev pub decimal : ℕ → Chars
decimal n = digits_onto (n + 1) n []

-- The text that a name stands for.
abbrev pub text_of : Name → Chars
text_of (Name.clk n) = codes "clk" ++ decimal n
text_of (Name.auto n) = codes "S" ++ decimal n
text_of (Name.word s) = codes s
