-- ===== src/Xtr/Diff.antt =====
-- `diff` of tools/xut/formats/xtr.py: the traces of two runs against each other.
pub mod Agrees
pub mod Iff
use xilinx_unittests.Prelude.{
  ℕ, suc, Bool, true, false, not, ◌&&◌, ◌||◌, ◌==◌, ltb, if◌then◌else◌, Option, none, some, List,
  [], ◌∷◌, ◌++◌, length, reverse,
}
use xilinx_unittests.Names.{Chars, chars_eq, member}
use xilinx_unittests.Xtr.{Dict, Trace, keys, lookup}
use xilinx_unittests.Xtr.Compare.{
  Mismatch, Shown, Kind, any_port, of_sample, at_port, order_mismatch,
}

abbrev pub is_xz : ℕ → Bool
is_xz c = c == b'x' || c == b'z'

-- `ca == cb or (ca in "xz" and not b_x) or (cb in "xz" and not a_x)`
abbrev pub is_same : Bool → Bool → ℕ → ℕ → Bool
is_same a_x b_x a b = a == b || is_xz a && not b_x || is_xz b && not a_x

-- `names_a | names_b`, in some order: the result is sorted.
abbrev pub fresh : List Chars → List Chars → List Chars
fresh known [] = []
fresh known (k ∷ ks) = let rest = fresh known ks in if member k known then rest else k ∷ rest

abbrev pub union : List Chars → List Chars → List Chars
union ks ms = ks ++ fresh ks ms

-- `v or "missing"`
abbrev pub or_missing : Option Chars → Shown
or_missing none = Shown.missing
or_missing (some []) = Shown.missing
or_missing (some (c ∷ s)) = Shown.text (c ∷ s)

abbrev pub or_present : {A : Type 0} → Option A → Shown
or_present none = Shown.missing
or_present (some a) = Shown.present

-- `a_x` and `b_x` tell whether a run can show x and z.
module _ (a_x b_x : Bool) where
  -- The bits of a port, LSB first, from bit `i`.
  unfoldable pub diff_bits : Chars → Chars → ℕ → Chars → Chars → List Mismatch
  diff_bits l p i [] bs = []
  diff_bits l p i (a ∷ more) [] = []
  diff_bits l p i (a ∷ more) (b ∷ bs) =
      let rest = diff_bits l p (suc i) more bs in
      if is_same a_x b_x a b
      then rest
      else at_port l p none (Shown.text (a ∷ [])) (Shown.text (b ∷ [])) (some i) Kind.value ∷ rest

  unfoldable pub diff_port : Chars → Chars → Option Chars → Option Chars → List Mismatch
  unfolding diff_bits
  diff_port l p (some va) (some vb) =
      if length va == length vb
      then diff_bits l p 0 (reverse va) (reverse vb)
      else at_port l p none (Shown.text va) (Shown.text vb) none Kind.port_width ∷ []
  diff_port l p va vb = at_port l p none (or_missing va) (or_missing vb) none Kind.missing_port ∷ []

  unfoldable pub diff_ports : Chars → Dict Chars → Dict Chars → List Chars → List Mismatch
  unfolding diff_port
  diff_ports l pa pb [] = []
  diff_ports l pa pb (p ∷ ps) = diff_port l p (lookup p pa) (lookup p pb) ++ diff_ports l pa pb ps

  unfoldable pub diff_sample : Chars → Option (Dict Chars) → Option (Dict Chars) → List Mismatch
  unfolding diff_ports
  diff_sample l (some pa) (some pb) = diff_ports l pa pb (union (keys pa) (keys pb))
  diff_sample l pa pb = of_sample Kind.missing_sample l (or_present pa) (or_present pb) ∷ []

  unfoldable pub diff_samples : Dict (Dict Chars) → Dict (Dict Chars) → List Chars → List Mismatch
  unfolding diff_sample
  diff_samples sa sb [] = []
  diff_samples sa sb (l ∷ ls) = diff_sample l (lookup l sa) (lookup l sb) ++ diff_samples sa sb ls

-- The order of texts, and of `(label, port, bit)`.
abbrev pub chars_lt : Chars → Chars → Bool
chars_lt s [] = false
chars_lt [] (d ∷ t) = true
chars_lt (c ∷ s) (d ∷ t) = let rest = chars_lt s t in ltb c d || c == d && rest

abbrev pub bit_lt : Option ℕ → Option ℕ → Bool
bit_lt i none = false
bit_lt none (some j) = true
bit_lt (some i) (some j) = ltb i j

abbrev pub is_before : Mismatch → Mismatch → Bool
is_before m n =
    chars_lt m.label n.label
    || chars_eq m.label n.label
      && (chars_lt m.port n.port || chars_eq m.port n.port && bit_lt m.bit n.bit)

unfoldable pub insert : Mismatch → List Mismatch → List Mismatch
insert m [] = m ∷ []
insert m (n ∷ ns) = let rest = insert m ns in if is_before n m then n ∷ rest else m ∷ n ∷ ns

unfoldable pub sorted : List Mismatch → List Mismatch
unfolding insert
sorted [] = []
sorted (m ∷ ms) = insert m (sorted ms)

unfoldable pub diff : Bool → Bool → Trace → Trace → List Mismatch
unfolding diff_samples sorted order_mismatch
diff a_x b_x a b = sorted (
    diff_samples a_x b_x a.samples b.samples (union (keys a.samples) (keys b.samples))
    ++ order_mismatch (keys a.samples) (keys b.samples))
