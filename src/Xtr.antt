-- ===== src/Xtr.antt =====
-- tools/xut/formats/xtr.py: a trace, the rules for what it may hold, `Trace.add`, `_group` and
-- `concat`. A dictionary is the list of its entries in the order of insertion. Of a sample's
-- provenance, `None` and the empty dictionary are the same to the code, and the empty list here.
pub mod Compare
pub mod Concat
pub mod Group
pub mod Prov
pub mod Diff
pub mod Tests
use xilinx_unittests.Prelude.{
  ℕ, zero, suc, ◌+◌, ◌%◌, Bool, true, false, not, ◌&&◌, ◌||◌, ◌==◌, leb, if◌then◌else◌, Option,
  none, some, List, [], ◌∷◌, ◌++◌, length, take, drop, any, all, map, Result, ok, err, ◌>>=◌, ◌>>◌,
  refuse,
}
use xilinx_unittests.Names.{
  Chars, chars_eq, not_empty, is_label, is_cfg, is_port, is_header_key, member,
}

abbrev pub Dict : Type 0 → Type 0
Dict A = List (Chars × A)

module _ {A : Type 0} where
  abbrev pub keys : Dict A → List Chars
  keys d = map (λ e. e.0) d

  -- `d.get(k)`
  unfoldable pub lookup : Chars → Dict A → Option A
  lookup k [] = none
  lookup k ((j, v) ∷ d) = if chars_eq k j then some v else lookup k d

  -- `d[k] = v`
  unfoldable pub put : Chars → A → Dict A → Dict A
  put k v [] = (k, v) ∷ []
  put k v ((j, w) ∷ d) = if chars_eq k j then (j, v) ∷ d else (j, w) ∷ put k v d

-- `d.get(k, {})`
abbrev pub or_empty : {A : Type 0} → Option (Dict A) → Dict A
or_empty none = []
or_empty (some d) = d

pub record Trace : Type 0 where
  pub header : Dict Chars
  pub samples : Dict (Dict Chars)
  pub prov : Dict (Dict Chars)

pub data XtrError : Type 0 where
  bad_key bad_header_value bad_kind : XtrError
  bad_label bad_port bad_bits no_dont_care no_value bad_prov duplicate_label bad_cfg : XtrError

-- `\s` of a regular expression on text.
abbrev pub is_space : ℕ → Bool
is_space c =
    leb 9 c && leb c 13
    || leb 28 c && leb c 32
    || any (λ d. c == d) (133 ∷ 160 ∷ 5760 ∷ 8232 ∷ 8233 ∷ 8239 ∷ 8287 ∷ 12288 ∷ [])
    || leb 8192 c && leb c 8202

abbrev pub is_bad_in_header : ℕ → Bool
is_bad_in_header c = is_space c || c == b'#'

abbrev pub is_bad_in_prov : ℕ → Bool
is_bad_in_prov c = is_space c || c == b'#' || c == b'|'

abbrev pub check_prov : Chars → Result XtrError (Unit {0})
check_prov tag = refuse (not (not_empty tag) || any is_bad_in_prov tag) XtrError.bad_prov

abbrev pub check_entries : Dict Chars → Result XtrError (Unit {0})
check_entries [] = ok tt
check_entries ((k, v) ∷ d) = do
  refuse (not (is_header_key k)) XtrError.bad_key
  refuse (not (not_empty v) || any is_bad_in_header v) XtrError.bad_header_value
  check_entries d

abbrev pub actual : Chars
actual = b'a' ∷ b'c' ∷ b't' ∷ b'u' ∷ b'a' ∷ b'l' ∷ []

abbrev pub expected : Chars
expected = b'e' ∷ b'x' ∷ b'p' ∷ b'e' ∷ b'c' ∷ b't' ∷ b'e' ∷ b'd' ∷ []

abbrev pub kind_key : Chars
kind_key = b'k' ∷ b'i' ∷ b'n' ∷ b'd' ∷ []

abbrev pub or_actual : Option Chars → Chars
or_actual none = actual
or_actual (some k) = k

abbrev pub kind_of : Dict Chars → Chars
kind_of header = or_actual (lookup kind_key header)

unfoldable pub check_header : Dict Chars → Result XtrError (Unit {0})
check_header header = do
  check_entries header
  refuse (not (member (kind_of header) (actual ∷ expected ∷ []))) XtrError.bad_kind

-- A character of "01xz-".
abbrev pub is_value_char : ℕ → Bool
is_value_char c = c == b'0' || c == b'1' || c == b'x' || c == b'z' || c == b'-'

abbrev pub check_values : Bool → Dict Chars → Result XtrError (Unit {0})
check_values dont_care [] = ok tt
check_values dont_care ((port, bits) ∷ values) = do
  refuse (not (is_port port)) XtrError.bad_port
  refuse (not (not_empty bits) || not (all is_value_char bits)) XtrError.bad_bits
  refuse (not dont_care && any (λ c. c == b'-') bits) XtrError.no_dont_care
  check_values dont_care values

abbrev pub check_tags : Dict Chars → Dict Chars → Result XtrError (Unit {0})
check_tags values [] = ok tt
check_tags values ((port, tag) ∷ prov) = do
  refuse (not (member port (keys values))) XtrError.no_value
  check_prov tag
  check_tags values prov

-- `_check_sample`
unfoldable pub check_sample : Chars → Dict Chars → Dict Chars → Chars → Result XtrError (Unit {0})
check_sample label values prov kind = do
  refuse (not (is_label label)) XtrError.bad_label
  check_values (chars_eq kind expected) values
  check_tags values prov

abbrev pub put_tags : Chars → Dict Chars → Dict (Dict Chars) → Dict (Dict Chars)
put_tags label [] d = d
put_tags label (p ∷ ps) d = put label (p ∷ ps) d

-- `Trace.add`
unfoldable pub add : Chars → Dict Chars → Dict Chars → Trace → Result XtrError Trace
unfolding check_sample
add label values prov t = do
  refuse (member label (keys t.samples)) XtrError.duplicate_label
  check_sample label values prov (kind_of t.header)
  ok (record t { samples = put label values t.samples; prov = put_tags label prov t.prov })

-- `concat`: the samples of one configuration, then those of the others.
abbrev pub joined : Chars → Chars → Chars
joined cfg label = cfg ++ b'/' ∷ label

unfoldable pub add_all :
    Chars → Dict (Dict Chars) → Dict (Dict Chars) → Trace → Result XtrError Trace
unfolding add
add_all cfg prov [] t = ok t
add_all cfg prov ((label, ports) ∷ samples) t =
    add (joined cfg label) ports (or_empty (lookup label prov)) t >>= add_all cfg prov samples

unfoldable pub concat_from : List (Chars × Trace) → Trace → Result XtrError Trace
unfolding add_all
concat_from [] t = ok t
concat_from ((cfg, part) ∷ parts) t = do
  refuse (not (is_cfg cfg)) XtrError.bad_cfg
  u ← add_all cfg part.prov part.samples t
  concat_from parts u

unfoldable pub concat : List (Chars × Trace) → Dict Chars → Result XtrError Trace
unfolding concat_from check_header
concat parts header = do
  check_header header
  concat_from parts (record { header = header; samples = []; prov = [] })

-- `_group`: the bits in groups of four from the right.
unfoldable pub fours : Chars → List Chars
fours [] = []
fours (a ∷ b ∷ c ∷ d ∷ s) = (a ∷ b ∷ c ∷ d ∷ []) ∷ fours s
fours s = s ∷ []

unfoldable pub join : List Chars → Chars
join [] = []
join (p ∷ []) = p
join (p ∷ q ∷ ps) = p ++ b'_' ∷ join (q ∷ ps)

abbrev pub head_part : ℕ → Chars → List Chars
head_part zero bits = []
head_part (suc n) bits = take (suc n) bits ∷ []

unfoldable pub group : Chars → Chars
unfolding fours join
group bits =
    let head = length bits % 4 in
    if leb (length bits) 4 then bits else join (head_part head bits ++ fours (drop head bits))

-- `.replace("_", "")` of `loads`.
unfoldable pub ungroup : Chars → Chars
ungroup [] = []
ungroup (c ∷ s) = let rest = ungroup s in if c == b'_' then rest else c ∷ rest
