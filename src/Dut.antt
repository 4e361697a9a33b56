-- ===== src/Dut.antt =====
-- `DutMap` of tools/xut/wrap.py: which bit of the wrapper's vectors is which bit of which port.
use xilinx_unittests.Prelude.{
  ℕ, suc, ◌==◌, ◌||◌, not, length, all, refuse, ◌>>◌, String, Bool, true, false, ◌&&◌,
  if◌then◌else◌, str_eq, Option, List, [], ◌∷◌, any, Result, ok, err,
}

pub data Vector : Type 0 where
  clk_vec in_vec out_vec : Vector

pub record Bit : Type 0 where
  pub vec : Vector
  pub bit : ℕ
  pub port : String
  pub index : ℕ
  pub cls : String
  pub role : String

pub record DutMap : Type 0 where
  pub prim : String
  pub family : String
  pub cfg : String
  pub attrs : List (String × String)
  pub nclk : ℕ
  pub nin : ℕ
  pub nout : ℕ
  pub bits : List Bit
  pub min_event_gap_ps : Option ℕ

pub data WrapError : Type 0 where
  not_a_clock_input no_port bad_role wrong_count wrong_order : WrapError

abbrev pub vector_eq : Vector → Vector → Bool
vector_eq clk_vec clk_vec = true
vector_eq in_vec in_vec = true
vector_eq out_vec out_vec = true
vector_eq _ _ = false

abbrev pub of_bits : Vector → List Bit → List Bit
of_bits v [] = []
of_bits v (b ∷ bs) = let rest = of_bits v bs in if vector_eq b.vec v then b ∷ rest else rest

-- `of(vec)`
abbrev pub of : DutMap → Vector → List Bit
of m v = of_bits v m.bits

abbrev pub with_port : String → String → List Bit → List Bit
with_port p r [] = []
with_port p r (b ∷ bs) =
    let rest = with_port p r bs in if str_eq b.port p && str_eq b.role r then b ∷ rest else rest

unfoldable pub port_bits : DutMap → Vector → String → String → List Bit
port_bits m v p role = with_port p role (of m v)

abbrev pub one_bit : List Bit → Result WrapError ℕ
one_bit (b ∷ []) = ok b.bit
one_bit _ = err not_a_clock_input

-- `clock_name(port)`: N where the text is `clk<N>`.
unfoldable pub clock_name : DutMap → String → Result WrapError ℕ
unfolding port_bits
clock_name m p = one_bit (port_bits m clk_vec p "")

abbrev pub contains : String → List String → Bool
contains p ps = any (str_eq p) ps

-- `dict.fromkeys(...)`: each port once, where it stands first.
abbrev pub distinct_from : List String → List String → List String
distinct_from seen [] = []
distinct_from seen (p ∷ ps) =
    let again = distinct_from seen ps in
    let first = p ∷ distinct_from (p ∷ seen) ps in if contains p seen then again else first

abbrev pub plain_ports : List Bit → List String
plain_ports [] = []
plain_ports (b ∷ bs) = let rest = plain_ports bs in if str_eq b.role "" then b.port ∷ rest else rest

unfoldable pub in_ports : DutMap → List String
in_ports m = distinct_from [] (plain_ports (of m in_vec))

abbrev pub class_in : String → List Bit → Result WrapError String
class_in p [] = err no_port
class_in p (b ∷ bs) = let rest = class_in p bs in if str_eq b.port p then ok b.cls else rest

-- `cls_of(port)`
unfoldable pub cls_of : DutMap → String → Result WrapError String
cls_of m p = class_in p m.bits

abbrev pub is_role : String → Bool
is_role r = str_eq r "" || str_eq r "drive_en" || str_eq r "drive_val" || str_eq r "obs"

-- `got == list(range(k, k + len(got)))`
unfoldable pub counts_from : ℕ → List Bit → Bool
counts_from k [] = true
counts_from k (b ∷ bs) = b.bit == k && counts_from (suc k) bs

abbrev pub check_vector : DutMap → Vector → ℕ → Result WrapError (Unit {0})
check_vector m v n = do
  refuse (not (length (of m v) == n)) wrong_count
  refuse (not (counts_from 0 (of m v))) wrong_order

-- `_check_map`: the bits of each vector are numbered 0 to n-1, in order.
unfoldable pub check_map : DutMap → Result WrapError (Unit {0})
unfolding counts_from
check_map m = do
  refuse (not (all (λ b. is_role b.role) m.bits)) bad_role
  check_vector m clk_vec m.nclk
  check_vector m in_vec m.nin
  check_vector m out_vec m.nout
