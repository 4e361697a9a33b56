-- ===== src/Crosscheck/Spots.antt =====
-- The spots of `_golden_vs_sims` of tools/xut/crosscheck.py: where a simulator differs from the golden trace, with the mismatch of each runner, and their order.
use xilinx_unittests.Prelude.{
  ℕ, String, Bool, true, false, ◌&&◌, ◌||◌, ◌==◌, ltb, if◌then◌else◌, str_eq, Option, none, some,
  List, [], ◌∷◌, any, Result, ok, ◌>>=◌,
}
use xilinx_unittests.Names.{Chars, chars_eq}
use xilinx_unittests.Xtr.Compare.{Mismatch, Kind, index_of, compare}
use xilinx_unittests.Xtr.Diff.{chars_lt, bit_lt}
use xilinx_unittests.Golden.{codes}
use xilinx_unittests.Crosscheck.{View, Assertion, pair}
use xilinx_unittests.Crosscheck.Points.{Compared, comparison, x_observable}

abbrev pub kind_name : Kind → Chars
kind_name Kind.value = codes "value"
kind_name Kind.missing_sample = codes "missing-sample"
kind_name Kind.extra_sample = codes "extra-sample"
kind_name Kind.missing_port = codes "missing-port"
kind_name Kind.port_width = codes "port-width"
kind_name Kind.sample_order = codes "sample-order"

-- A place where a trace may differ: `(label, port, bit)`, and with its kind a key of `per_point`.
pub record Place : Type 0 where
  pub label : Chars
  pub port : Chars
  pub bit : Option ℕ

abbrev pub place_of : Mismatch → Place
place_of m = record { label = m.label; port = m.port; bit = m.bit }

abbrev pub bit_eq : Option ℕ → Option ℕ → Bool
bit_eq none none = true
bit_eq (some i) (some j) = i == j
bit_eq _ _ = false

abbrev pub same_place : Place → Place → Bool
same_place p q = chars_eq p.label q.label && chars_eq p.port q.port && bit_eq p.bit q.bit

abbrev pub has_place : List Place → Place → Bool
has_place ps p = any (same_place p) ps

abbrev pub put_run : String → Mismatch → List (String × Mismatch) → List (String × Mismatch)
put_run r m [] = (r, m) ∷ []
put_run r m ((s, n) ∷ rs) =
    let rest = put_run r m rs in if str_eq r s then (s, m) ∷ rs else (s, n) ∷ rest

-- An entry of `per_point`: the mismatch of each runner, of which there is one.
pub record Spot : Type 0 where
  pub place : Place
  pub kind : Kind
  pub runner : String
  pub first : Mismatch
  pub more : List (String × Mismatch)

abbrev pub is_at : Mismatch → Spot → Bool
is_at m s = same_place (place_of m) s.place && chars_eq (kind_name m.kind) (kind_name s.kind)

abbrev pub runs_of : Spot → List (String × Mismatch)
runs_of s = (s.runner, s.first) ∷ s.more

abbrev pub run_at : String → Mismatch → Spot → Spot
run_at r m s =
    if str_eq r s.runner then record s { first = m } else record s { more = put_run r m s.more }

-- `per_point[(m.label, m.port, m.bit, m.kind)][r] = m`
abbrev pub new_spot : String → Mismatch → Spot
new_spot r m = record { place = place_of m; kind = m.kind; runner = r; first = m; more = [] }

abbrev pub put_spot : String → Mismatch → List Spot → List Spot
put_spot r m [] = new_spot r m ∷ []
put_spot r m (s ∷ ss) =
    let rest = put_spot r m ss in if is_at m s then run_at r m s ∷ ss else s ∷ rest

abbrev pub put_spots : String → List Mismatch → List Spot → List Spot
put_spots r [] ss = ss
put_spots r (m ∷ ms) ss = put_spots r ms (put_spot r m ss)

-- The first loop: the spots, and the comparisons made.
unfoldable pub spots_onto :
    View → List Spot → List View → Result Assertion (List Spot × List Compared)
unfolding pair compare
spots_onto gold ss [] = ok (ss, [])
spots_onto gold ss (v ∷ vs) = do
  p ← pair gold v true true (x_observable v.runner)
  rest ← spots_onto gold (put_spots v.runner (compare (x_observable v.runner) p.a p.b) ss) vs
  ok (rest.0, comparison gold v p ∷ rest.1)

-- The order of the second loop: that of the golden trace, then that of the key.
abbrev pub place_lt : Place → Place → Bool
place_lt p q =
    chars_lt p.label q.label
    || chars_eq p.label q.label
      && (chars_lt p.port q.port || chars_eq p.port q.port && bit_lt p.bit q.bit)

abbrev pub key_lt : Spot → Spot → Bool
key_lt s t =
    place_lt s.place t.place
    || same_place s.place t.place && chars_lt (kind_name s.kind) (kind_name t.kind)

abbrev pub spot_lt : List Chars → Spot → Spot → Bool
spot_lt labels s t =
    let i = index_of s.place.label labels in
    let j = index_of t.place.label labels in ltb i j || i == j && key_lt s t
