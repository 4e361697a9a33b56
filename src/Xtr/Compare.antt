-- ===== src/Xtr/Compare.antt =====
-- `compare` of tools/xut/formats/xtr.py: a golden trace against the trace of a run. A mismatch is
-- of the whole sample or port where it has no bit (-1 in the code).
pub mod Bits
pub mod Order
pub mod Matches
use xilinx_unittests.Prelude.{
  ℕ, suc, ◌+◌, Bool, true, false, not, ◌&&◌, ◌||◌, ◌==◌, if◌then◌else◌, Option, none, some, List,
  [], ◌∷◌, ◌++◌, length, reverse,
}
use xilinx_unittests.Names.{Chars, chars_eq, member}
use xilinx_unittests.Xtr.{Dict, Trace, keys, lookup, or_empty}

pub data Kind : Type 0 where
  value missing_sample extra_sample missing_port port_width sample_order : Kind

-- What a mismatch shows acts expected and acts found.
pub data Shown : Type 0 where
  present missing : Shown
  text : Chars → Shown
  position : ℕ → Shown

pub record Mismatch : Type 0 where
  pub label : Chars
  pub port : Chars
  pub bit : Option ℕ
  pub expected : Shown
  pub actual : Shown
  pub prov : Option Chars
  pub kind : Kind

abbrev pub any_port : Chars
any_port = b'*' ∷ []

abbrev pub of_sample : Kind → Chars → Shown → Shown → Mismatch
of_sample kind l e a = record {
  label = l;
  port = any_port;
  bit = none;
  expected = e;
  actual = a;
  prov = none;
  kind = kind;
}

-- `e == "-" or (e in "xz" and not x_observable)`
abbrev pub skipped : Bool → ℕ → Bool
skipped x c = c == b'-' || (c == b'x' || c == b'z') && not x

-- The loop over the bits of one port, LSB first, from bit `i`.
unfoldable pub compare_bits :
    Bool → (Shown → Shown → Option ℕ → Kind → Mismatch) → ℕ → Chars → Chars → List Mismatch
compare_bits x at i [] acts = []
compare_bits x at i (e ∷ es) [] = []
compare_bits x at i (e ∷ es) (a ∷ acts) =
    let rest = compare_bits x at (suc i) es acts in
    if skipped x e || e == a then rest else at (text (e ∷ [])) (text (a ∷ [])) (some i) value ∷ rest

abbrev pub at_port : Chars → Chars → Option Chars → Shown → Shown → Option ℕ → Kind → Mismatch
at_port l p prov e a bit kind = record {
  label = l;
  port = p;
  bit = bit;
  expected = e;
  actual = a;
  prov = prov;
  kind = kind;
}

unfoldable pub compare_port :
    Bool → (Shown → Shown → Option ℕ → Kind → Mismatch) → Chars → Option Chars → List Mismatch
unfolding compare_bits
compare_port x at exp none = at (text exp) missing none missing_port ∷ []
compare_port x at exp (some act) =
    if length act == length exp
    then compare_bits x at 0 (reverse exp) (reverse act)
    else at (text exp) (text act) none port_width ∷ []

unfoldable pub compare_ports : Bool → Chars → Dict Chars → Dict Chars → Dict Chars → List Mismatch
unfolding compare_port
compare_ports x l prov got [] = []
compare_ports x l prov got ((p, exp) ∷ ports) =
    compare_port x (at_port l p (lookup p prov)) exp (lookup p got)
    ++ compare_ports x l prov got ports

unfoldable pub compare_sample :
    Bool → Chars → Dict Chars → Dict Chars → Option (Dict Chars) → List Mismatch
unfolding compare_ports
compare_sample x l prov ports none = of_sample missing_sample l present missing ∷ []
compare_sample x l prov ports (some got) = compare_ports x l prov got ports

unfoldable pub compare_samples :
    Bool → Dict (Dict Chars) → Dict (Dict Chars) → Dict (Dict Chars) → List Mismatch
unfolding compare_sample
compare_samples x prov got [] = []
compare_samples x prov got ((l, ports) ∷ samples) =
    compare_sample x l (or_empty (lookup l prov)) ports (lookup l got)
    ++ compare_samples x prov got samples

unfoldable pub extra_samples : List Chars → List Chars → List Mismatch
extra_samples known [] = []
extra_samples known (l ∷ ls) =
    let rest = extra_samples known ls in
    if member l known then rest else of_sample extra_sample l missing present ∷ rest

-- `[lbl for lbl in order if lbl in other]`
unfoldable pub common : List Chars → List Chars → List Chars
common other [] = []
common other (l ∷ ls) = let rest = common other ls in if member l other then l ∷ rest else rest

-- `names.index(l)`, for a name that is there.
unfoldable pub index_of : Chars → List Chars → ℕ
index_of l [] = 0
index_of l (m ∷ ms) = let later = index_of l ms in if chars_eq l m then 0 else later + 1

-- The loop of `_order_mismatch`; `xs` and `ys` are what is left at position `i`. The common labels of
-- two dictionaries are as many on each side, so the two lists end together.
unfoldable pub first_difference : List Chars → ℕ → List Chars → List Chars → List Mismatch
unfolding index_of
first_difference common_b i [] ys = []
first_difference common_b i (a ∷ xs) [] = []
first_difference common_b i (a ∷ xs) (b ∷ ys) =
    let rest = first_difference common_b (suc i) xs ys in
    if chars_eq b a
    then rest
    else of_sample sample_order a (position i) (position (index_of a common_b)) ∷ []

unfoldable pub order_mismatch : List Chars → List Chars → List Mismatch
unfolding first_difference common
order_mismatch a b = let common_b = common a b in first_difference common_b 0 (common b a) common_b

-- `compare`
unfoldable pub compare : Bool → Trace → Trace → List Mismatch
unfolding compare_samples extra_samples order_mismatch
compare x e a =
    compare_samples x e.prov a.samples e.samples
    ++ extra_samples (keys e.samples) (keys a.samples)
    ++ order_mismatch (keys e.samples) (keys a.samples)
