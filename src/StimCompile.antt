-- ===== src/StimCompile.antt =====
-- tools/xut/stimcompile.py: the operation words that the testbench replays, for a stimulus that fits
-- the wrapper.
pub mod Encoding
pub mod Fields
pub mod Samples
pub mod Whole
pub mod Tests
use xilinx_unittests.Prelude.{
  ℕ, zero, suc, ◌+◌, ◌-◌, ◌*◌, ◌/◌, ◌%◌, ◌^◌, Bool, true, false, not, ◌&&◌, ◌||◌, ◌==◌, leb, any,
  if◌then◌else◌, str_eq, Option, none, some, List, [], ◌∷◌, ◌++◌, length, reverse, Result, ok, err,
  ◌>>=◌, ◌>>◌, refuse, sort_by,
}
use xilinx_unittests.Names.{Chars, chars_eq}
use xilinx_unittests.Xvec.{Name, Op, Clock, Event, Vec, name_eq, is_end, clock}
use xilinx_unittests.Xvec.FreeClocks.{Run, is_start, high_ps, last_time, free_runs}

-- `OPS`
pub data Operation : Type 0 where
  set_bit edge_of glbl_of take_sample clk_hi clk_start clk_stop finish : Operation

abbrev pub code : Operation → ℕ
code set_bit = 1
code edge_of = 2
code glbl_of = 3
code take_sample = 4
code clk_hi = 5
code clk_start = 6
code clk_stop = 7
code finish = 15

pub data CompileError : Type 0 where
  does_not_fit empty_phase unknown_op : CompileError
  -- What a look-up of the code raises: excluded by the structure check.
  key_error : CompileError

-- `_w`. The fields that the test lets pass share no bit, so the sum is their union.
unfoldable pub word : Operation → ℕ → ℕ → ℕ → Result CompileError ℕ
word op idx val t = do
  refuse (not (leb idx (2 ^ 24 - 1) && (leb val (2 ^ 32 - 1) && leb t (2 ^ 64 - 1)))) does_not_fit
  ok (code op * 2 ^ 120 + idx * 2 ^ 96 + val * 2 ^ 64 + t)

abbrev pub or_key_error : {A : Type 0} → Option A → Result CompileError A
or_key_error none = err key_error
or_key_error (some a) = ok a

-- `_clock_words`
unfoldable pub clock_words : Vec → Name → ℕ → Result CompileError (List ℕ)
unfolding word
clock_words v n t = do
  c ← or_key_error (clock v.clocks n)
  let high = high_ps c
  let low = c.period - high
  refuse (high == 0 || low == 0) empty_phase
  a ← word clk_hi c.index high t
  b ← word clk_start c.index low t
  ok (a ∷ b ∷ [])

-- `_BIT[ch]`
abbrev pub bit_code : ℕ → Option ℕ
bit_code c =
    if c == b'0'
    then some 0
    else if c == b'1'
    then some 1
    else if c == b'x'
    then some 2
    else if c == b'z'
    then some 3
    else none

-- `_GLBL[...]`
abbrev pub signal_code : Name → Option ℕ
signal_code (Name.word s) =
    if str_eq s "GSR"
    then some 0
    else if str_eq s "GTS"
    then some 1
    else if str_eq s "GRESTORE"
    then some 2
    else none
signal_code _ = none

-- A `set`, LSB first, from bit `k`.
unfoldable pub set_words : ℕ → ℕ → Chars → Result CompileError (List ℕ)
unfolding word
set_words t k [] = ok []
set_words t k (c ∷ cs) = do
  b ← or_key_error (bit_code c)
  w ← word set_bit k b t
  ws ← set_words t (suc k) cs
  ok (w ∷ ws)

-- `int(e.value)` of a `glbl`, whose value the structure check holds to one digit.
abbrev pub digit : Chars → Result CompileError ℕ
digit (c ∷ []) = if c == b'0' then ok 0 else if c == b'1' then ok 1 else err key_error
digit _ = err key_error

abbrev pub one_word : Result CompileError ℕ → Result CompileError (List ℕ)
one_word r = r >>= λ w. ok (w ∷ [])

-- The words of one event, after `n` samples.
unfoldable pub event_words : Vec → ℕ → Event → Op → Result CompileError (List ℕ)
unfolding word clock_words set_words
event_words v n e Op.set = set_words e.t e.lsb (reverse e.value)
event_words v n e Op.edge = do
  c ← or_key_error (clock v.clocks e.target)
  one_word (word edge_of c.index (if chars_eq e.value (b'r' ∷ []) then 1 else 0) e.t)
event_words v n e Op.glbl = do
  s ← or_key_error (signal_code e.target)
  d ← digit e.value
  one_word (word glbl_of s d e.t)
event_words v n e Op.sample = one_word (word take_sample n 0 e.t)
event_words v n e Op.clock_start = clock_words v e.target e.t
event_words v n e Op.clock_stop = do
  c ← or_key_error (clock v.clocks e.target)
  one_word (word clk_stop c.index 0 e.t)
event_words v n e Op.end = one_word (word finish 0 0 e.t)
event_words v n e (Op.unknown o) = err unknown_op

pub record Compiled : Type 0 where
  pub words : List ℕ
  pub labels : List Name

-- `labels.append(e.target)` at a sample.
abbrev pub label_of : Event → Op → List Name
label_of e Op.sample = e.target ∷ []
label_of e _ = []

-- The loop over the events.
unfoldable pub compile_events : Vec → Compiled → List Event → Result CompileError Compiled
unfolding event_words
compile_events v c [] = ok c
compile_events v c (e ∷ es) = do
  ws ← event_words v (length c.labels) e e.op
  compile_events v (record { words = c.words ++ ws; labels = c.labels ++ label_of e e.op }) es

abbrev pub is_explicit : Vec → Run → Bool
is_explicit v r = any (λ e. is_start e.op && name_eq e.target r.clock.name) v.events

-- The free clocks that no event starts.
unfoldable pub free_words : Vec → List Run → Result CompileError (List ℕ)
unfolding clock_words
free_words v [] = ok []
free_words v (r ∷ rs) = do
  ws ← if is_explicit v r then ok [] else clock_words v r.clock.name r.start
  rest ← free_words v rs
  ok (ws ++ rest)

abbrev pub ends : List Event → Bool
ends [] = false
ends (e ∷ []) = is_end e.op
ends (e ∷ f ∷ es) = ends (f ∷ es)

abbrev pub end_margin_ps : ℕ
end_margin_ps = 1000

abbrev pub last_or : ℕ → List Event → ℕ
last_or settle [] = settle
last_or settle (e ∷ es) = last_time (e ∷ es)

unfoldable pub end_words : Vec → Result CompileError (List ℕ)
unfolding word
end_words v =
    if ends v.events
    then ok []
    else one_word (word finish 0 0 (last_or v.header.settle_ps v.events + end_margin_ps))

-- `w & _T_MAX`
abbrev pub time_of : ℕ → ℕ
time_of w = w % 2 ^ 64

-- `compile_vec`, after `_check_fits`.
unfoldable pub compile_fitting : Vec → Result CompileError Compiled
unfolding compile_events free_words end_words
compile_fitting v = do
  c ← compile_events v (record { words = []; labels = [] }) v.events
  fs ← free_words v (free_runs v)
  es ← end_words v
  ok (record { words = sort_by time_of (c.words ++ fs ++ es); labels = c.labels })
