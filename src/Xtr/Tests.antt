-- ===== src/Xtr/Tests.antt =====
-- Two traces of a flip-flop, and the theorems on traces at them.
use xilinx_unittests.Prelude.{
  true, false, ◌≡◌, arith, refl, ◌↔◌, some, List, [], ◌∷◌, map, Result, ok, err,
}
use xilinx_unittests.Names.{Chars, is_label, is_cfg, is_port, is_header_key}
use xilinx_unittests.Xtr.{
  Trace, XtrError, keys, check_header, check_sample, concat, concat_from, add_all, add, group,
  ungroup, fours, join, put, lookup,
}
use xilinx_unittests.Xtr.Compare.{
  Mismatch, compare, compare_samples, compare_sample, compare_ports, compare_port, compare_bits,
  extra_samples, order_mismatch, first_difference, common, index_of,
}
use xilinx_unittests.Xtr.Compare.Order.{AreDistinct}
use xilinx_unittests.Xtr.Compare.Matches.{Matches, compare_iff}
use xilinx_unittests.Xtr.Diff.{diff}
use xilinx_unittests.Xtr.Diff.Iff.{Agrees, diff_iff, diff-swap}
use xilinx_unittests.Xtr.Concat.{labelled, concat-samples}
use xilinx_unittests.Xtr.Group.{ungroup-group}
use xilinx_unittests.Xtr.Prov.{Prov, prov_token, bit_prov, bit_prov-prov_token}

abbrev q : Chars
q = b'Q' ∷ []

abbrev first_label : Chars
first_label = b'S' ∷ b'0' ∷ []

abbrev second_label : Chars
second_label = b'S' ∷ b'1' ∷ []

abbrev golden : Trace
golden = record {
  header = [];
  samples =
      (first_label, (q, b'1' ∷ b'-' ∷ []) ∷ []) ∷ (second_label, (q, b'x' ∷ b'0' ∷ []) ∷ []) ∷ [];
  prov = [];
}

abbrev shown : Trace
shown = record {
  header = [];
  samples =
      (first_label, (q, b'1' ∷ b'0' ∷ []) ∷ []) ∷ (second_label, (q, b'1' ∷ b'1' ∷ []) ∷ []) ∷ [];
  prov = [];
}

mismatched_bits : map (λ (m : Mismatch). m.bit) (compare false golden shown) ≡ some 0 ∷ []
unfolding compare compare_samples compare_sample compare_ports compare_port compare_bits
    extra_samples order_mismatch first_difference common index_of lookup
mismatched_bits = refl

compare_iff_example : (compare false golden shown ≡ []) ↔ Matches false golden shown
compare_iff_example = compare_iff false golden shown (refl, (refl, tt)) (refl, (refl, tt))

abbrev two_parts : List (Chars × Trace)
two_parts = (b'a' ∷ [], shown) ∷ (b'b' ∷ [], shown) ∷ []

abbrev or_shown : Result XtrError Trace → Trace
or_shown (ok t) = t
or_shown (err e) = shown

joins : concat two_parts [] ≡ ok (or_shown (concat two_parts []))
unfolding concat concat_from add_all add check_header check_sample put lookup is_label is_cfg
    is_port is_header_key
joins = refl

concat-samples_example :
    ((or_shown (concat two_parts [])).samples ≡ labelled two_parts)
    × ((or_shown (concat two_parts [])).header ≡ [])
    × AreDistinct (keys (or_shown (concat two_parts [])).samples)
concat-samples_example = concat-samples two_parts [] (or_shown (concat two_parts [])) joins

abbrev six_bits : Chars
six_bits = b'1' ∷ b'0' ∷ b'x' ∷ b'z' ∷ b'1' ∷ b'0' ∷ []

six_bits-group : group six_bits ≡ b'1' ∷ b'0' ∷ b'_' ∷ b'x' ∷ b'z' ∷ b'1' ∷ b'0' ∷ []
unfolding group fours join
six_bits-group = refl

ungroup-group_example : ungroup (group six_bits) ≡ six_bits
ungroup-group_example = ungroup-group six_bits refl

abbrev two_tags : List Chars
two_tags = (b'd' ∷ b'1' ∷ []) ∷ (b'd' ∷ b'2' ∷ []) ∷ []

bit_prov-prov_token_example : bit_prov (prov_token (Prov.each two_tags)) 1 ≡ some (b'd' ∷ b'2' ∷ [])
bit_prov-prov_token_example = bit_prov-prov_token two_tags 1 (refl, (refl, tt)) (omega arith)

-- A run of two states, which cannot show the x that the other shows.
abbrev blind : Trace
blind = record {
  header = [];
  samples =
      (first_label, (q, b'1' ∷ b'0' ∷ []) ∷ []) ∷ (second_label, (q, b'0' ∷ b'1' ∷ []) ∷ []) ∷ [];
  prov = [];
}

abbrev seeing : Trace
seeing = record {
  header = [];
  samples =
      (first_label, (q, b'1' ∷ b'0' ∷ []) ∷ []) ∷ (second_label, (q, b'x' ∷ b'1' ∷ []) ∷ []) ∷ [];
  prov = [];
}

no_difference : diff true false seeing blind ≡ []
unfolding diff lookup
no_difference = refl

diff_iff_example : (diff true false seeing blind ≡ []) ↔ Agrees true false seeing blind
diff_iff_example = diff_iff true false seeing blind (refl, (refl, tt)) (refl, (refl, tt))

diff-swap_example : (diff true false seeing blind ≡ []) ↔ (diff false true blind seeing ≡ [])
diff-swap_example = diff-swap true false seeing blind (refl, (refl, tt)) (refl, (refl, tt))
