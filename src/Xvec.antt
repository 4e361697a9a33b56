-- ===== src/Xvec.antt =====
-- tools/xut/formats/xvec.py, the stimulus format: its data, and the rules for one clock and for one
-- event. The modules below: events that share a time (`Timing`), the edges of free clocks
-- (`FreeClocks`), and what the rules guarantee.
-- Times, bit positions and counts are natural numbers, as the grammar has them. A name `clk<N>` is
-- `clk N`, a sample label `S<N>` is `auto N`, any other text is a `word`, so that no text
-- has two names. A value is the list of its characters' codes. The header is
-- what `_check_header` accepts: the required keys are fields, and the integers are read.
pub mod Timing
pub mod Structure
pub mod FreeClocks
pub mod Tests
use xilinx_unittests.Prelude.{
  ℕ, ◌+◌, ◌-◌, String, Bool, true, false, not, ◌&&◌, ◌||◌, ◌==◌, ltb, leb, if◌then◌else◌, str_eq,
  Option, none, some, List, [], ◌∷◌, ◌++◌, length, any, all, Result, ok, err, ◌>>=◌, ◌>>◌, refuse,
}
pub use xilinx_unittests.Names.{Chars, chars_eq}

pub data Name : Type 0 where
  clk : ℕ → Name
  auto : ℕ → Name
  word : String → Name

pub data Op : Type 0 where
  set edge glbl sample clock_start clock_stop end : Op
  unknown : String → Op

pub data Mode : Type 0 where
  stepped free : Mode
  other : String → Mode

pub record Clock : Type 0 where
  pub name : Name
  pub index : ℕ
  pub period : ℕ
  pub phase : ℕ
  pub duty : ℕ
  pub mode : Mode

pub record Event : Type 0 where
  pub t : ℕ
  pub op : Op
  pub target : Name
  pub lsb : ℕ
  pub msb : ℕ
  pub value : Chars
  pub simultaneous : Bool

pub record Header : Type 0 where
  pub prim : String
  pub cfg : String
  pub nin : ℕ
  pub nout : ℕ
  pub nclk : ℕ
  pub settle_ps : ℕ
  pub seed : ℕ
  pub async_sep_ps : Option ℕ
  pub expect : Option String
  pub illegal : Option (List String)
  pub attrs : List (String × String)

pub record Vec : Type 0 where
  pub header : Header
  pub clocks : List Clock
  pub events : List Event
  pub hw_renderable : Option Bool
  pub hw_reason : List String

abbrev pub name_eq : Name → Name → Bool
name_eq (clk n) (clk m) = n == m
name_eq (auto n) (auto m) = n == m
name_eq (word s) (word r) = str_eq s r
name_eq _ _ = false

abbrev pub is_free : Mode → Bool
is_free free = true
is_free _ = false

abbrev pub is_stepped : Mode → Bool
is_stepped stepped = true
is_stepped _ = false

abbrev pub is_set : Op → Bool
is_set set = true
is_set _ = false

abbrev pub is_end : Op → Bool
is_end end = true
is_end _ = false

pub data Error : Type 0 where
  clock_index clock_timing clock_mode : Error
  before_settle set_target msb_below_lsb out_of_range bad_value takes_no_value : Error
  undeclared_clock bad_edge bad_glbl bad_label duplicate_label needs_free_clock : Error
  end_argument unknown_op : Error
  time_backwards end_not_last lone_simultaneous mixed_marking overlapping_sets unmarked_cotimed :
      Error

-- The first test of `_check_clock`: the clock's name is not its own, or is declared already.
abbrev pub is_misnamed : Header → Clock → List Name → Bool
is_misnamed h c names =
    not (name_eq c.name (clk c.index)) || not (ltb c.index h.nclk) || any (name_eq c.name) names

-- `_check_clock`: the names declared so far, with this clock's added.
unfoldable pub check_clock : Header → Clock → List Name → Result Error (List Name)
check_clock h c names = do
  refuse (is_misnamed h c names) clock_index
  refuse (c.period == 0 || not (ltb 0 c.duty && ltb c.duty 100)) clock_timing
  refuse (not (is_stepped c.mode || is_free c.mode)) clock_mode
  ok (c.name ∷ names)

abbrev pub is_bit_char : ℕ → Bool
is_bit_char a = a == b'0' || a == b'1' || a == b'x' || a == b'z'

abbrev pub is_nil {ℓ} : {A : Type ℓ} → List A → Bool
is_nil [] = true
is_nil (x ∷ xs) = false

abbrev pub is_signal : Name → Bool
is_signal (word s) = str_eq s "GSR" || str_eq s "GTS" || str_eq s "GRESTORE"
is_signal _ = false

-- The rules of `_check_event` that depend on the operation. `is_label` is the grammar of
-- tools/xut/formats/common.py on the text that a name stands for.
module _ (is_label : Name → Bool) where
  unfoldable pub check_op : Vec → Event → List Name → Op → Result Error (List Name)
  check_op v e labels set = do
    refuse (not (name_eq e.target (word "in"))) set_target
    refuse (ltb e.msb e.lsb) msb_below_lsb
    refuse (leb v.header.nin e.msb) out_of_range
    refuse (not (length e.value == e.msb - e.lsb + 1) || not (all is_bit_char e.value)) bad_value
    ok labels
  check_op v e labels edge = do
    refuse (not (any (λ c. name_eq c.name e.target) v.clocks)) undeclared_clock
    refuse (not (chars_eq e.value (b'r' ∷ []) || chars_eq e.value (b'f' ∷ []))) bad_edge
    ok labels
  check_op v e labels glbl = do
    refuse
        (not (is_signal e.target)
          || not (chars_eq e.value (b'0' ∷ []) || chars_eq e.value (b'1' ∷ [])))
        bad_glbl
    ok labels
  check_op v e labels sample = do
    refuse (not (is_nil e.value)) takes_no_value
    refuse (not (is_label e.target)) bad_label
    refuse (any (name_eq e.target) labels) duplicate_label
    ok (e.target ∷ labels)
  check_op v e labels clock_start = do
    refuse (not (is_nil e.value)) takes_no_value
    refuse (not (any (λ c. name_eq c.name e.target && is_free c.mode) v.clocks)) needs_free_clock
    ok labels
  check_op v e labels clock_stop = do
    refuse (not (is_nil e.value)) takes_no_value
    refuse (not (any (λ c. name_eq c.name e.target && is_free c.mode) v.clocks)) needs_free_clock
    ok labels
  check_op v e labels end = do
    refuse (not (is_nil e.value)) takes_no_value
    refuse (not (name_eq e.target (word ""))) end_argument
    ok labels
  check_op v e labels (unknown s) = do refuse (not (is_nil e.value)) takes_no_value; err unknown_op

  -- `_check_event`: the sample labels seen so far, with this event's added.
  unfoldable pub check_event : Vec → Event → List Name → Result Error (List Name)
  check_event v e labels = do
    refuse (ltb e.t v.header.settle_ps && not (e.t == 0 && is_set e.op)) before_settle
    check_op v e labels e.op

-- `vec.clock(name)`; `none` is its KeyError.
abbrev pub clock : List Clock → Name → Option Clock
clock [] n = none
clock (c ∷ cs) n = if name_eq c.name n then some c else clock cs n
