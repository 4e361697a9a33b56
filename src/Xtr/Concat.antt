-- ===== src/Xtr/Concat.antt =====
-- `concat` of tools/xut/formats/xtr.py: which samples the joined trace has.
use mathlib.Core.List.{append_assoc, append-nil}
use xilinx_unittests.Prelude.{
  ok-injective, true, false, not, ◌≡◌, refl, sym, subst, ◌∙◌, inl, inr, Bool-cases, List, [], ◌∷◌,
  ◌++◌, ok, refuse, bind-ok, check-ok, refuse-ok,
}
use xilinx_unittests.Names.{Chars, chars_eq, chars_eq_refl, chars_eq→≡, is_cfg, member}
use xilinx_unittests.Xtr.{
  Dict, Trace, XtrError, keys, lookup, put, or_empty, kind_of, check_sample, check_header, add,
  add_all, joined, concat_from, concat,
}
use xilinx_unittests.Xtr.Compare.Order.{AreDistinct}

-- The samples of one part under the labels `<cfg>/<label>`.
abbrev pub labelled_part : Chars → Dict (Dict Chars) → Dict (Dict Chars)
labelled_part cfg [] = []
labelled_part cfg ((l, ports) ∷ samples) = (joined cfg l, ports) ∷ labelled_part cfg samples

-- The samples of every part, in order.
abbrev pub labelled : List (Chars × Trace) → Dict (Dict Chars)
labelled [] = []
labelled ((cfg, part) ∷ parts) = labelled_part cfg part.samples ++ labelled parts

put-new :
    {A : Type 0} (l : Chars) (v : A) (d : Dict A)
    → member l (keys d) ≡ false
    → put l v d ≡ d ++ (l, v) ∷ []
unfolding put
put-new l v [] h = refl
put-new l v ((k, w) ∷ d) h = elim (Bool-cases (chars_eq l k)) [
  | inl q ↦ absurd (cc (rw q at h))
  | inr q ↦ rw (q, put-new l v d (rw q at h)) refl
]

member-append :
    {A : Type 0} (l m : Chars) (v : A) (d : Dict A)
    → member l (keys d) ≡ false
    → chars_eq l m ≡ false
    → member l (keys (d ++ (m, v) ∷ [])) ≡ false
member-append l m v [] h ne = rw ne refl
member-append l m v ((k, w) ∷ d) h ne = elim (Bool-cases (chars_eq l k)) [
  | inl q ↦ absurd (cc (rw q at h))
  | inr q ↦ rw q (member-append l m v d (rw q at h) ne)
]

chars_eq-flip : (l m : Chars) → chars_eq l m ≡ false → chars_eq m l ≡ false
chars_eq-flip l m h = elim (Bool-cases (chars_eq m l)) [
  | inl q ↦
      absurd (cc (subst (λ k. chars_eq l k ≡ true) (sym (chars_eq→≡ m l q)) (chars_eq_refl l), h))
  | inr q ↦ q
]

AreDistinct-append :
    {A : Type 0} (l : Chars) (v : A) (d : Dict A)
    → member l (keys d) ≡ false
    → AreDistinct (keys d)
    → AreDistinct (keys (d ++ (l, v) ∷ []))
AreDistinct-append l v [] h d = (refl, tt)
AreDistinct-append l v ((k, w) ∷ d) h dist = elim (Bool-cases (chars_eq l k)) [
  | inl q ↦ absurd (cc (rw q at h))
  | inr q ↦ (
    member-append k l v d dist.0 (chars_eq-flip l k q),
    AreDistinct-append l v d (rw q at h) dist.1,
  )
]

-- A trace after another: the new samples stand behind the old ones, and no label is there twice.
record Extends (added : Dict (Dict Chars)) (t u : Trace) : Type 0 where
  pub samples : u.samples ≡ t.samples ++ added
  pub header : u.header ≡ t.header
  pub distinct : AreDistinct (keys u.samples)

fresh-Extends :
    (l : Chars) (values prov : Dict Chars) (t u : Trace)
    → AreDistinct (keys t.samples)
    → add l values prov t ≡ ok u
    → Extends ((l, values) ∷ []) t u
unfolding add
fresh-Extends l values prov t u d h =
    let (new, h1) = check-ok (refuse (member l (keys t.samples)) XtrError.duplicate_label) _ h in
    let (legal, h2) = check-ok (check_sample l values prov (kind_of t.header)) _ h1 in
    let out = refuse-ok (member l (keys t.samples)) XtrError.duplicate_label new in
    let added = put-new l values t.samples out in
    let same = ok-injective _ u h2 in
    subst (Extends ((l, values) ∷ []) t) same (record {
      samples = added;
      header = refl;
      distinct =
          subst (λ d. AreDistinct (keys d)) (sym added)
            (AreDistinct-append l values t.samples out d);
    })

chain-Extends :
    (a b : Dict (Dict Chars)) (t u v : Trace) → Extends a t u → Extends b u v → Extends (a ++ b) t v
chain-Extends a b t u v h k = record {
  samples = rw (k.samples, h.samples) (append_assoc t.samples a b);
  header = k.header ∙ h.header;
  distinct = k.distinct;
}

none-Extends : (t : Trace) → AreDistinct (keys t.samples) → Extends [] t t
none-Extends t d = record { samples = sym (append-nil t.samples); header = refl; distinct = d }

add_all-Extends :
    (cfg : Chars) (prov samples : Dict (Dict Chars)) (t u : Trace)
    → AreDistinct (keys t.samples)
    → add_all cfg prov samples t ≡ ok u
    → Extends (labelled_part cfg samples) t u
unfolding add_all
add_all-Extends cfg prov [] t u d h = subst (Extends [] t) (ok-injective t u h) (none-Extends t d)
add_all-Extends cfg prov ((l, ports) ∷ samples) t u d h =
    let (w, made, rest) =
      bind-ok (add (joined cfg l) ports (or_empty (lookup l prov)) t) (add_all cfg prov samples)
        h in
    let first = fresh-Extends (joined cfg l) ports (or_empty (lookup l prov)) t w d made in
    chain-Extends ((joined cfg l, ports) ∷ []) (labelled_part cfg samples) t w u first
      (add_all-Extends cfg prov samples w u first.distinct rest)

concat_from-Extends :
    (parts : List (Chars × Trace)) (t u : Trace)
    → AreDistinct (keys t.samples)
    → concat_from parts t ≡ ok u
    → Extends (labelled parts) t u
unfolding concat_from
concat_from-Extends [] t u d h = subst (Extends [] t) (ok-injective t u h) (none-Extends t d)
concat_from-Extends ((cfg, part) ∷ parts) t u d h =
    let (legal, h1) = check-ok (refuse (not (is_cfg cfg)) XtrError.bad_cfg) _ h in
    let (w, made, rest) = bind-ok (add_all cfg part.prov part.samples t) (concat_from parts) h1 in
    let first = add_all-Extends cfg part.prov part.samples t w d made in
    chain-Extends (labelled_part cfg part.samples) (labelled parts) t w u first
      (concat_from-Extends parts w u first.distinct rest)

-- A joined trace that is not refused has the given header and exactly the samples of its parts, in
-- their order, each under the label of its configuration, and no label is there twice.
pub concat-samples :
    (parts : List (Chars × Trace)) (header : Dict Chars) (t : Trace)
    → concat parts header ≡ ok t
    → (t.samples ≡ labelled parts) × (t.header ≡ header) × AreDistinct (keys t.samples)
unfolding concat
concat-samples parts header t h =
    let (legal, made) = check-ok (check_header header) _ h in
    let e =
      concat_from-Extends parts (record { header = header; samples = []; prov = [] }) t tt made in
    (e.samples, e.header, e.distinct)
