-- ===== src/StimCompile/Encoding.antt =====
-- What the words of one event hold, by the fields that the testbench reads.
use mathlib.Core.List.{Memᴰ}
use mathlib.Core.List.Memᴰ as MemD
use xilinx_unittests.Prelude.{
  ℕ, suc, ◌+◌, ◌-◌, ◌==◌, ◌||◌, if◌then◌else◌, Option, none, some, ◌≡◌, refl, subst, arith, List,
  [], ◌∷◌, reverse, ok, bind-ok, check-ok, ok-injective, refuse,
}
use xilinx_unittests.Names.{Chars, chars_eq}
use xilinx_unittests.Xvec.{Op, Clock, Event, Vec, clock}
use xilinx_unittests.Xvec.FreeClocks.{high_ps}
use xilinx_unittests.StimCompile.{
  Operation, CompileError, or_key_error, bit_code, signal_code, digit, one_word, word, clock_words,
  set_words, event_words,
}
use xilinx_unittests.StimCompile.Fields.{HasFields, word-HasFields}

-- A word of an image, by its fields.
abbrev InImage : List ℕ → Operation → ℕ → ℕ → ℕ → Type 0
InImage image op idx val t = (w : ℕ) × Memᴰ w image × HasFields op idx val t w

-- The bits of a `set` from bit `k`, the lowest first, each a word with its code.
abbrev AreSet : List ℕ → ℕ → ℕ → Chars → Type 0
AreSet image t k [] = Unit
AreSet image t k (c ∷ cs) =
    ((b : ℕ) × (bit_code c ≡ some b) × InImage image Operation.set_bit k b t)
    × AreSet image t (suc k) cs

-- What the image has of an event, after `n` samples: an edge with the index of its clock and 1 for a rise, a
-- sample with its number, a start of a clock with its high and its low phase.
abbrev pub Encodes : Vec → List ℕ → ℕ → Event → Op → Type 0
Encodes v image n e Op.set = AreSet image e.t e.lsb (reverse e.value)
Encodes v image n e Op.edge =
    (c : Clock) × (clock v.clocks e.target ≡ some c)
    × InImage image Operation.edge_of c.index (if chars_eq e.value (b'r' ∷ []) then 1 else 0) e.t
Encodes v image n e Op.glbl =
    (s d : ℕ) × (signal_code e.target ≡ some s)
    × (e.value ≡ (b'0' + d) ∷ [])
    × InImage image Operation.glbl_of s d e.t
Encodes v image n e Op.sample = InImage image Operation.take_sample n 0 e.t
Encodes v image n e Op.clock_start =
    (c : Clock) × (clock v.clocks e.target ≡ some c)
    × InImage image Operation.clk_hi c.index (high_ps c) e.t
    × InImage image Operation.clk_start c.index (c.period - high_ps c) e.t
Encodes v image n e Op.clock_stop =
    (c : Clock) × (clock v.clocks e.target ≡ some c)
    × InImage image Operation.clk_stop c.index 0 e.t
Encodes v image n e Op.end = InImage image Operation.finish 0 0 e.t
Encodes v image n e (Op.unknown o) = ⊥

-- A larger image encodes what a smaller one does.
module _ {small big : List ℕ} (up : (w : ℕ) → Memᴰ w small → Memᴰ w big) where
  InImage-grow :
      (op : Operation) (idx val t : ℕ) → InImage small op idx val t → InImage big op idx val t
  InImage-grow op idx val t (w, m, fields) = (w, up w m, fields)

  AreSet-grow : (t k : ℕ) (cs : Chars) → AreSet small t k cs → AreSet big t k cs
  AreSet-grow t k [] h = tt
  AreSet-grow t k (c ∷ cs) ((b, q, here), later) =
      ((b, q, InImage-grow Operation.set_bit k b t here), AreSet-grow t (suc k) cs later)

pub Encodes-grow :
    (v : Vec) (small big : List ℕ) (n : ℕ) (e : Event) (op : Op)
    → ((w : ℕ) → Memᴰ w small → Memᴰ w big)
    → Encodes v small n e op
    → Encodes v big n e op
Encodes-grow v small big n e Op.set up h = AreSet-grow up e.t e.lsb (reverse e.value) h
Encodes-grow v small big n e Op.edge up (c, q, h) =
    (c, q, InImage-grow up Operation.edge_of _ _ _ h)
Encodes-grow v small big n e Op.glbl up (s, d, q, r, h) =
    (s, d, q, r, InImage-grow up Operation.glbl_of s d e.t h)
Encodes-grow v small big n e Op.sample up h = InImage-grow up Operation.take_sample n 0 e.t h
Encodes-grow v small big n e Op.clock_start up (c, q, h, l) =
    (c, q, InImage-grow up Operation.clk_hi _ _ _ h, InImage-grow up Operation.clk_start _ _ _ l)
Encodes-grow v small big n e Op.clock_stop up (c, q, h) =
    (c, q, InImage-grow up Operation.clk_stop _ _ _ h)
Encodes-grow v small big n e Op.end up h = InImage-grow up Operation.finish 0 0 e.t h
Encodes-grow v small big n e (Op.unknown o) up h = h

pub or_key_error-ok : {A : Type 0} (o : Option A) (a : A) → or_key_error o ≡ ok a → o ≡ some a
or_key_error-ok none a h = cc
or_key_error-ok (some b) a h = cc (ok-injective b a h)

digit-ok : (cs : Chars) (d : ℕ) → digit cs ≡ ok d → cs ≡ (b'0' + d) ∷ []
digit-ok [] d h = cc
digit-ok (c ∷ []) d h = ground arith
digit-ok (c ∷ b ∷ cs) d h = cc

-- The words of one event encode it.
module _ (image : List ℕ) where
  one_word-InImage :
      (op : Operation) (idx val t : ℕ) (ws : List ℕ)
      → one_word (word op idx val t) ≡ ok ws
      → ((w : ℕ) → Memᴰ w ws → Memᴰ w image)
      → InImage image op idx val t
  one_word-InImage op idx val t ws h up =
      let (w, made, rest) = bind-ok (word op idx val t) (λ w. ok (w ∷ [])) h in
      let same = ok-injective (w ∷ []) ws rest in
      (w, up w (subst (Memᴰ w) same (MemD.head refl)), word-HasFields op idx val t w made)

  set_words-AreSet :
      (t k : ℕ) (cs : Chars) (ws : List ℕ)
      → set_words t k cs ≡ ok ws
      → ((w : ℕ) → Memᴰ w ws → Memᴰ w image)
      → AreSet image t k cs
  unfolding set_words
  set_words-AreSet t k [] ws h up = tt
  set_words-AreSet t k (c ∷ cs) ws h up =
      let (b, hb, h1) = bind-ok (or_key_error (bit_code c)) _ h in
      let (w, made, h2) = bind-ok (word Operation.set_bit k b t) _ h1 in
      let (rest, hr, h3) = bind-ok (set_words t (suc k) cs) _ h2 in
      let same = ok-injective (w ∷ rest) ws h3 in
      (
        (
          b,
          or_key_error-ok (bit_code c) b hb,
          (
            w,
            up w (subst (Memᴰ w) same (MemD.head refl)),
            word-HasFields Operation.set_bit k b t w made,
          ),
        ),
        set_words-AreSet t (suc k) cs rest hr (λ x m. up x (subst (Memᴰ x) same (MemD.tail m))),
      )

  pub event_words-Encodes :
      (v : Vec) (n : ℕ) (e : Event) (op : Op) (ws : List ℕ)
      → event_words v n e op ≡ ok ws
      → ((w : ℕ) → Memᴰ w ws → Memᴰ w image)
      → Encodes v image n e op
  unfolding event_words clock_words
  event_words-Encodes v n e Op.set ws h up = set_words-AreSet e.t e.lsb (reverse e.value) ws h up
  event_words-Encodes v n e Op.edge ws h up =
      let (c, hc, h1) = bind-ok (or_key_error (clock v.clocks e.target)) _ h in
      (c, or_key_error-ok _ c hc, one_word-InImage Operation.edge_of _ _ _ ws h1 up)
  event_words-Encodes v n e Op.glbl ws h up =
      let (s, hs, h1) = bind-ok (or_key_error (signal_code e.target)) _ h in
      let (d, hd, h2) = bind-ok (digit e.value) _ h1 in
      (
        s,
        d,
        or_key_error-ok _ s hs,
        digit-ok e.value d hd,
        one_word-InImage Operation.glbl_of s d e.t ws h2 up,
      )
  event_words-Encodes v n e Op.sample ws h up =
      one_word-InImage Operation.take_sample n 0 e.t ws h up
  event_words-Encodes v n e Op.clock_start ws h up =
      let (c, hc, h1) = bind-ok (or_key_error (clock v.clocks e.target)) _ h in
      let high = high_ps c in
      let low = c.period - high in
      let (phases, h2) = check-ok (refuse (high == 0 || low == 0) CompileError.empty_phase) _ h1 in
      let (a, ha, h3) = bind-ok (word Operation.clk_hi c.index high e.t) _ h2 in
      let (b, hb, h4) = bind-ok (word Operation.clk_start c.index low e.t) _ h3 in
      let same = ok-injective (a ∷ b ∷ []) ws h4 in
      (
        c,
        or_key_error-ok _ c hc,
        (
          a,
          up a (subst (Memᴰ a) same (MemD.head refl)),
          word-HasFields Operation.clk_hi c.index high e.t a ha,
        ),
        (
          b,
          up b (subst (Memᴰ b) same (MemD.tail (MemD.head refl))),
          word-HasFields Operation.clk_start c.index low e.t b hb,
        ),
      )
  event_words-Encodes v n e Op.clock_stop ws h up =
      let (c, hc, h1) = bind-ok (or_key_error (clock v.clocks e.target)) _ h in
      (c, or_key_error-ok _ c hc, one_word-InImage Operation.clk_stop _ _ _ ws h1 up)
  event_words-Encodes v n e Op.end ws h up = one_word-InImage Operation.finish 0 0 e.t ws h up
  event_words-Encodes v n e (Op.unknown o) ws h up = cc h
