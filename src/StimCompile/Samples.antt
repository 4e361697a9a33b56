-- ===== src/StimCompile/Samples.antt =====
-- The image of a stimulus: every event is in it, the samples are numbered in order, and the words come
-- in the order of time.
use mathlib.Core.List.{Memᴰ, append_assoc, append-nil}
use mathlib.Core.List.Memᴰ as MemD
use xilinx_unittests.Prelude.{
  ℕ, ◌+◌, ◌≡◌, sym, subst, ◌∙◌, List, [], ◌∷◌, ◌++◌, length, length-append, ok, bind-ok, IsSorted,
  sort_by, sort_by-IsSorted, mem-sort_by,
}
use xilinx_unittests.Xvec.{Name, Event, Vec}
use xilinx_unittests.Xvec.FreeClocks.{free_runs}
use xilinx_unittests.StimCompile.{
  Compiled, event_words, label_of, compile_events, free_words, end_words, time_of, compile_fitting,
}
use xilinx_unittests.StimCompile.Encoding.{Encodes, Encodes-grow, event_words-Encodes}

-- The words of each event are in the image, in which the event is encoded; a sample has the number of the
-- samples before it.
abbrev pub Holds : Vec → List ℕ → ℕ → List Event → Type 0
Holds v image n [] = Unit
Holds v image n (e ∷ es) =
    ((ws : List ℕ) × (event_words v n e e.op ≡ ok ws) × ((w : ℕ) → Memᴰ w ws → Memᴰ w image))
    × Encodes v image n e e.op
    × Holds v image (n + length (label_of e e.op)) es

-- The labels of the samples, in order.
abbrev pub sampled : List Event → List Name
sampled [] = []
sampled (e ∷ es) = label_of e e.op ++ sampled es

Holds-grow :
    (v : Vec) (small big : List ℕ) (n : ℕ) (es : List Event)
    → ((w : ℕ) → Memᴰ w small → Memᴰ w big)
    → Holds v small n es
    → Holds v big n es
Holds-grow v small big n [] up h = tt
Holds-grow v small big n (e ∷ es) up ((ws, made, inside), encoded, later) = (
  (ws, made, λ w m. up w (inside w m)),
  Encodes-grow v small big n e e.op up encoded,
  Holds-grow v small big (n + length (label_of e e.op)) es up later,
)

record Compiles (v : Vec) (c : Compiled) (es : List Event) (d : Compiled) : Type 0 where
  pub kept : (w : ℕ) → Memᴰ w c.words → Memᴰ w d.words
  pub held : Holds v d.words (length c.labels) es
  pub numbered : d.labels ≡ c.labels ++ sampled es

compile_events-Compiles :
    (v : Vec) (es : List Event) (c d : Compiled) → compile_events v c es ≡ ok d → Compiles v c es d
unfolding compile_events
compile_events-Compiles v [] c d h =
    let same : c ≡ d = cc h in
    subst (Compiles v c []) same
      (record { kept = λ w m. m; held = tt; numbered = sym (append-nil c.labels) })
compile_events-Compiles v (e ∷ es) c d h =
    let (ws, made, rest) = bind-ok (event_words v (length c.labels) e e.op) _ h in
    let next : Compiled = record { words = c.words ++ ws; labels = c.labels ++ label_of e e.op } in
    let later = compile_events-Compiles v es next d rest in
    let inside = λ (w : ℕ) (m : Memᴰ w ws). later.kept w (MemD.append_right c.words m) in
    record {
      kept = λ w m. later.kept w (MemD.append_left ws m);
      held = (
        (ws, made, inside),
        event_words-Encodes d.words v (length c.labels) e e.op ws made inside,
        subst (λ n. Holds v d.words n es) (length-append c.labels (label_of e e.op)) later.held,
      );
      numbered = later.numbered ∙ append_assoc c.labels (label_of e e.op) (sampled es);
    }

-- A stimulus that is compiled: the words of each event are in the image, by their fields: of a set one for
-- each bit, its position and its value; of an edge the index of its clock, and 1 for a rise; of a global
-- signal its code and level; of a start of a clock its high and its low phase, and of a stop its index; of a
-- sample the number of the samples before it; each at the time of the event. The labels are the samples' in
-- their order, and the words come in the order of their time field.
pub compile_fitting-Holds :
    (v : Vec) (c : Compiled)
    → compile_fitting v ≡ ok c
    → Holds v c.words 0 v.events × (c.labels ≡ sampled v.events) × IsSorted time_of c.words
unfolding compile_fitting
compile_fitting-Holds v c h =
    let start : Compiled = record { words = []; labels = [] } in
    let (d, made, h1) = bind-ok (compile_events v start v.events) _ h in
    let (fs, free, h2) = bind-ok (free_words v (free_runs v)) _ h1 in
    let (es, end, h3) = bind-ok (end_words v) _ h2 in
    let all_words = d.words ++ fs ++ es in
    let image : Compiled = record { words = sort_by time_of all_words; labels = d.labels } in
    let same : image ≡ c = cc h3 in
    let parts = compile_events-Compiles v v.events start d made in
    let into = λ (w : ℕ) (m : Memᴰ w d.words).
      (mem-sort_by time_of w all_words).1 (MemD.append_left es (MemD.append_left fs m)) in
    subst
      (λ (k : Compiled).
        Holds v k.words 0 v.events × (k.labels ≡ sampled v.events) × IsSorted time_of k.words)
      same
      (
        Holds-grow v d.words image.words 0 v.events into parts.held,
        parts.numbered,
        sort_by-IsSorted time_of all_words,
      )
