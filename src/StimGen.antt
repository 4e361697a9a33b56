-- ===== src/StimGen.antt =====
-- `VecBuilder` of tools/xut/stimgen.py. A method returns the new builder, or what it raises. The
-- events are kept newest first; `build` turns them round. A value is a number or a text of bits.
-- The modules below: sequences of calls (`Commands`), and the spacing of the events (`Spacing`).
pub mod Commands
pub mod Spacing
pub mod Steps
pub mod Calls
pub mod Built
pub mod Tests
use xilinx_unittests.Prelude.{
  ℕ, zero, suc, ◌+◌, ◌*◌, ◌/◌, ◌%◌, ◌^◌, max, String, Bool, true, false, not, ◌&&◌, ◌||◌, ◌==◌, ltb,
  leb, if◌then◌else◌, str_eq, Option, none, some, List, [], ◌∷◌, ◌++◌, length, any, all, map,
  reverse, Result, ok, err, ◌>>=◌, ◌>>◌, refuse,
}
use xilinx_unittests.Xvec.{
  Name, Op, Mode, Clock, Event, Header, Vec, Chars, name_eq, chars_eq, is_bit_char, is_signal,
}
use xilinx_unittests.Dut.{
  Bit, DutMap, WrapError, Vector, of, of_bits, port_bits, clock_name, in_ports, cls_of, contains,
  distinct_from,
}
use xilinx_unittests.Validate.{min_sep_ps, min_settle_ps, min_event_gap}

pub data Value : Type 0 where
  num : ℕ → Value
  text : Chars → Value

pub data Fault : Type 0 where
  below_min_sep settle_too_short period_too_short : Fault
  no_such_port set_twice does_not_fit late_init inside_simultaneous use_async_or_edge : Fault
  several_async_bits bad_glbl must_alternate bad_label duplicate_label needs_a_port lonely_group :
      Fault
  not_a_clock unknown_class : Fault

pub record Builder : Type 0 where
  pub m : DutMap
  pub seed : ℕ
  pub settle : ℕ
  pub period : ℕ
  pub gap : ℕ
  pub sep : ℕ
  pub expect : Option String
  pub illegal : List String
  pub t : ℕ
  pub events : List Event
  pub vals : List (String × Value)
  pub level : List (ℕ × Bool)
  pub set_at : Option ℕ
  pub set_ports : List String
  pub last_change : ℕ
  pub last_edge : Option ℕ
  pub n : ℕ
  pub labels : List Name
  pub sim : Option (List Event)

-- The keyword arguments of the constructor.
pub record Options : Type 0 where
  pub settle_ps : ℕ
  pub period_ps : ℕ
  pub gap_ps : ℕ
  pub async_sep_ps : ℕ
  pub expect : Option String
  pub illegal : List String

-- A new object, at the gap that the constructor has computed.
abbrev pub fresh : DutMap → ℕ → Options → ℕ → Builder
fresh m seed o gap = record {
  m = m;
  seed = seed;
  settle = o.settle_ps;
  period = o.period_ps;
  gap = gap;
  sep = o.async_sep_ps;
  expect = o.expect;
  illegal = o.illegal;
  t = o.settle_ps;
  events = [];
  vals = map (λ p. (p, num 0)) (in_ports m);
  level = map (λ b. (b.bit, false)) (of m Vector.clk_vec);
  set_at = none;
  set_ports = [];
  last_change = 0;
  last_edge = none;
  n = 0;
  labels = [];
  sim = none;
}

unfoldable pub new : DutMap → ℕ → Options → Result Fault Builder
new m seed o = do
  refuse (ltb o.gap_ps min_sep_ps || ltb o.async_sep_ps min_sep_ps) below_min_sep
  refuse (ltb o.settle_ps min_settle_ps) settle_too_short
  let gap = max o.gap_ps (min_event_gap o.async_sep_ps m)
  refuse (ltb (o.period_ps / 2) (3 * gap)) period_too_short
  ok (fresh m seed o gap)

abbrev pub in_sim : Option (List Event) → Bool
in_sim none = false
in_sim (some g) = true

-- `_new_time`: a new distinct event time is at least `gap` after the one before it.
abbrev pub spaced_time : List Event → ℕ → ℕ → ℕ
spaced_time [] gap t = t
spaced_time (e ∷ es) gap t = if ltb e.t t && ltb t (e.t + gap) then e.t + gap else t

unfoldable pub new_time : Builder → Builder
new_time b = record b { t = spaced_time b.events b.gap b.t }

abbrev pub grow : Event → Option (List Event) → Option (List Event)
grow e none = none
grow e (some g) = some (g ++ e ∷ [])

abbrev pub event_at : ℕ → Op → Name → ℕ → ℕ → Chars → Bool → Event
event_at t op target lsb msb value marked = record {
  t = t;
  op = op;
  target = target;
  lsb = lsb;
  msb = msb;
  value = value;
  simultaneous = marked;
}

unfoldable pub emit : Op → Name → ℕ → ℕ → Chars → Builder → Builder
unfolding new_time
emit op target lsb msb value b =
    let c = new_time b in
    let e = event_at c.t op target lsb msb value (in_sim c.sim) in
    record c { events = e ∷ c.events; sim = grow e c.sim }

unfoldable pub after : ℕ → Builder → Builder
after t b = record b { t = max b.t t }

-- `format(value, f"0{width}b")`, for a value that fits.
unfoldable pub binary : ℕ → ℕ → Chars
binary zero v = []
binary (suc w) v = binary w (v / 2) ++ (b'0' + v % 2) ∷ []

unfoldable pub bits_of : Value → ℕ → Result Fault Chars
unfolding binary
bits_of (text s) width = do
  refuse (not (length s == width) || not (all is_bit_char s)) does_not_fit
  ok s
bits_of (num v) width = do refuse (not (ltb v (2 ^ width))) does_not_fit; ok (binary width v)

abbrev pub last_bit : Bit → List Bit → ℕ
last_bit b [] = b.bit
last_bit b (c ∷ bs) = last_bit c bs

abbrev pub put_val : String → Value → List (String × Value) → List (String × Value)
put_val p v [] = (p, v) ∷ []
put_val p v ((q, w) ∷ r) = if str_eq q p then (q, v) ∷ r else (q, w) ∷ put_val p v r

-- `at != self.t`
abbrev pub same_time : Option ℕ → ℕ → Bool
same_time none t = false
same_time (some s) t = s == t

-- The ports that were set at the cursor's time.
abbrev pub ports_now : Builder → List String
ports_now b = if same_time b.set_at b.t then b.set_ports else []

-- `_put`, after its first line.
unfoldable pub put_bits : String → Value → List Bit → Builder → Result Fault Builder
unfolding new_time bits_of emit
put_bits port value [] b = err no_such_port
put_bits port value (x ∷ xs) b = do
  let c = new_time b
  let ports = ports_now c
  refuse (contains port ports) set_twice
  s ← bits_of value (length (x ∷ xs))
  let d = record c { set_at = some c.t; set_ports = port ∷ ports }
  let f = emit Op.set (Name.word "in") x.bit (last_bit x xs) s d
  ok (record f { vals = put_val port value f.vals; last_change = f.t })

unfoldable pub put : String → Value → Builder → Result Fault Builder
unfolding put_bits
put port value b = put_bits port value (port_bits b.m Vector.in_vec port "") b

abbrev pub alone_start : Builder → Builder
alone_start b = if in_sim b.sim then b else after (b.last_change + b.gap) b

abbrev pub alone_end : Builder → Builder
alone_end b = if in_sim b.sim then b else record b { t = b.t + b.gap }

abbrev pub not_in_sim : Builder → Result Fault (Unit {0})
not_in_sim b = refuse (in_sim b.sim) inside_simultaneous

unfoldable pub put_all : List (String × Value) → Builder → Result Fault Builder
put_all [] b = ok b
put_all ((p, v) ∷ r) b = put p v b >>= put_all r

unfoldable pub init : List (String × Value) → Builder → Result Fault Builder
init ports b = do
  refuse (any (λ e. ltb 0 e.t) b.events) late_init
  not_in_sim b
  c ← put_all ports (record b { t = 0 })
  ok (record c { t = b.t; last_change = 0 })

abbrev pub is_timed_class : Result WrapError String → Bool
is_timed_class (ok c) = str_eq c "async" || str_eq c "gate" || str_eq c "clock"
is_timed_class (err e) = false

abbrev pub is_known : Result WrapError String → Bool
is_known (ok c) = true
is_known (err e) = false

-- The first loop of `set`: every port has a class, and outside `simultaneous` a data class.
unfoldable pub check_classes : List (String × Value) → Builder → Result Fault (Unit {0})
check_classes [] b = ok tt
check_classes ((p, v) ∷ r) b = do
  refuse (not (is_known (cls_of b.m p))) unknown_class
  refuse (is_timed_class (cls_of b.m p) && not (in_sim b.sim)) use_async_or_edge
  check_classes r b

abbrev pub after_edge : Option ℕ → ℕ → Builder → Builder
after_edge none d b = b
after_edge (some s) d b = after (s + d) b

abbrev pub value_eq : Value → Value → Bool
value_eq (num a) (num b) = a == b
value_eq (text a) (text b) = chars_eq a b
value_eq _ _ = false

abbrev pub has_value : String → Value → List (String × Value) → Bool
has_value p v [] = false
has_value p v ((q, w) ∷ r) = if str_eq q p then value_eq w v else has_value p v r

unfoldable pub put_changed : List (String × Value) → Builder → Result Fault Builder
put_changed [] b = ok b
put_changed ((p, v) ∷ r) b = (if has_value p v b.vals then ok b else put p v b) >>= put_changed r

unfoldable pub set : List (String × Value) → Builder → Result Fault Builder
set ports b = do
  check_classes ports b
  let c = if in_sim b.sim then b else after_edge b.last_edge b.gap b
  let again = not (in_sim c.sim) && any (λ p. contains p.0 (ports_now c)) ports
  put_changed ports (if again then record c { t = c.t + c.gap } else c)

-- The wait of `async_` and `glbl` for the last change and the last edge.
abbrev pub separate : Builder → Builder
separate b = let c = alone_start b in if in_sim b.sim then b else after_edge c.last_edge c.sep c

abbrev pub settle_after : Builder → Builder
settle_after b = if in_sim b.sim then b else after (b.last_change + b.sep) b

unfoldable pub async_ : String → Value → Builder → Result Fault Builder
async_ port value b = do
  refuse (not (in_sim b.sim) && ltb 1 (length (port_bits b.m Vector.in_vec port "")))
      several_async_bits
  c ← put port value (separate b)
  ok (settle_after (alone_end c))

unfoldable pub glbl : Name → ℕ → Builder → Result Fault Builder
unfolding emit
glbl sig value b = do
  refuse (not (is_signal sig) || not (value == 0 || value == 1)) bad_glbl
  let c = emit Op.glbl sig 0 0 ((b'0' + value) ∷ []) (separate b)
  ok (settle_after (alone_end (record c { last_change = c.t })))

abbrev pub level_of : ℕ → List (ℕ × Bool) → Option Bool
level_of k [] = none
level_of k ((j, v) ∷ r) = if j == k then some v else level_of k r

abbrev pub put_level : ℕ → Bool → List (ℕ × Bool) → List (ℕ × Bool)
put_level k v [] = (k, v) ∷ []
put_level k v ((j, w) ∷ r) = if j == k then (j, v) ∷ r else (j, w) ∷ put_level k v r

abbrev pub is_level : Option Bool → Bool → Bool
is_level none v = false
is_level (some true) v = v
is_level (some false) v = not v

-- `edge`, at the number of its clock.
unfoldable pub edge_at : Result WrapError ℕ → Bool → Builder → Result Fault Builder
unfolding emit
edge_at (err e) rising b = err not_a_clock
edge_at (ok k) rising b = do
  refuse (is_level (level_of k b.level) rising) must_alternate
  let v = (if rising then b'r' else b'f') ∷ []
  let c = emit Op.edge (Name.clk k) 0 0 v (alone_start b)
  ok (
      alone_end
        (record c { level = put_level k rising c.level; last_edge = some c.t; last_change = c.t }))

unfoldable pub edge : String → Bool → Builder → Result Fault Builder
unfolding edge_at
edge port rising b = edge_at (clock_name b.m port) rising b

-- The port of `cycle`: the only clock when none is named.
abbrev pub cycle_port : Option String → List String → Result Fault String
cycle_port (some p) clocks = ok p
cycle_port none (p ∷ []) = ok p
cycle_port none _ = err needs_a_port

-- `sample`; without a label it takes `S<n>`.
module _ (is_label : Name → Bool) where
  unfoldable pub sample_as : Name → Builder → Result Fault Builder
  unfolding emit
  sample_as label b = do
    refuse (not (is_label label)) bad_label
    refuse (any (name_eq label) b.labels) duplicate_label
    let c = after (b.last_change + b.gap) (record b { labels = label ∷ b.labels })
    let d = emit Op.sample label 0 0 [] c
    ok (record d { t = d.t + d.gap })

  unfoldable pub sample : Option Name → Builder → Result Fault Builder
  unfolding sample_as
  sample none b = not_in_sim b >> sample_as (Name.auto b.n) (record b { n = b.n + 1 })
  sample (some label) b = not_in_sim b >> sample_as label b

  abbrev pub sample_if : Bool → Builder → Result Fault Builder
  sample_if true b = sample none b
  sample_if false b = ok b

  -- One round of `cycle`.
  unfoldable pub half_cycles : String → Bool → Builder → Result Fault Builder
  half_cycles port sampled b = do
    let c = after (b.last_change + b.gap) b
    d ← edge port true c
    e ← sample_if sampled d
    f ← edge port false (after (c.t + b.period / 2) e)
    g ← sample_if sampled f
    ok (after (c.t + b.period) g)

  unfoldable pub cycles : ℕ → String → Bool → Builder → Result Fault Builder
  cycles zero port sampled b = ok b
  cycles (suc n) port sampled b = half_cycles port sampled b >>= cycles n port sampled

  unfoldable pub cycle : Option String → ℕ → Bool → Builder → Result Fault Builder
  unfolding cycles half_cycles
  cycle port n sampled b = do
    not_in_sim b
    p ← cycle_port port (distinct_from [] (map (λ x. x.port) (of b.m Vector.clk_vec)))
    cycles n p sampled b

unfoldable pub wait : ℕ → Builder → Result Fault Builder
wait ps b = not_in_sim b >> ok (record b { t = b.t + ps })

-- `simultaneous`, up to and after its `yield`.
unfoldable pub enter : Builder → Result Fault Builder
enter b = do
  not_in_sim b
  let c = after_edge b.last_edge b.gap (after (b.last_change + b.gap) b)
  ok (record c { sim = some [] })

abbrev pub group_size : Option (List Event) → ℕ
group_size none = 0
group_size (some g) = length g

unfoldable pub leave : Builder → Result Fault Builder
leave b = do
  refuse (ltb (group_size b.sim) 2) lonely_group
  ok (record b { sim = none; t = b.t + b.gap })

abbrev pub stepped_clocks : ℕ → List Bit → List Clock
stepped_clocks period [] = []
stepped_clocks period (b ∷ bs) =
    record {
      name = Name.clk b.bit;
      index = b.bit;
      period = period;
      phase = 0;
      duty = 50;
      mode = Mode.stepped;
    }
    ∷ stepped_clocks period bs

abbrev pub if_any : List String → Option (List String)
if_any [] = none
if_any (x ∷ xs) = some (x ∷ xs)

abbrev pub if_text : Option String → Option String
if_text none = none
if_text (some s) = if str_eq s "" then none else some s

unfoldable pub build : Builder → Result Fault Vec
unfolding new_time
build b = do
  not_in_sim b
  let c = new_time (after (b.last_change + b.gap) b)
  let end = event_at c.t Op.end (Name.word "") 0 0 [] false
  ok (record {
    header = record {
      prim = c.m.prim;
      cfg = c.m.cfg;
      nin = c.m.nin;
      nout = c.m.nout;
      nclk = c.m.nclk;
      settle_ps = c.settle;
      seed = c.seed;
      async_sep_ps = some c.sep;
      expect = if_text c.expect;
      illegal = if_any c.illegal;
      attrs = c.m.attrs;
    };
    clocks = stepped_clocks c.period (of c.m Vector.clk_vec);
    events = reverse (end ∷ c.events);
    hw_renderable = none;
    hw_reason = [];
  })
