-- ===== src/PortClass.antt =====
-- tools/xut/catalog/portclass.py: the default class of a primitive's port.
pub mod Direction
pub mod Tests
use xilinx_unittests.Prelude.{
  ℕ, String, Bool, true, false, not, ◌&&◌, ◌||◌, ◌==◌, if◌then◌else◌, str_eq, Option, none, some,
  List, [], ◌∷◌, any,
}
use xilinx_unittests.Names.{Chars}
use xilinx_unittests.Golden.{codes}

-- `CLASSES`
pub data PortClass : Type 0 where
  clock async gate plain inout clock_out pad drp : PortClass

abbrev pub starts : Chars → Chars → Bool
starts s [] = true
starts [] (d ∷ p) = false
starts (c ∷ s) (d ∷ p) = let rest = starts s p in c == d && rest

abbrev pub starts_with : String → List String → Bool
starts_with s ps = any (λ p. starts (codes s) (codes p)) ps

abbrev pub is_one_of : String → List String → Bool
is_one_of s names = any (str_eq s) names

-- `_CLOCKS`
abbrev pub clocks : List String
clocks =
    "C" ∷ "CLK" ∷ "CLKARDCLK" ∷ "CLKBWRCLK" ∷ "RDCLK" ∷ "WRCLK" ∷ "CLKIN1" ∷ "CLKIN2" ∷ "CLKFBIN"
    ∷ "CLKDIV" ∷ "CLKB" ∷ "OCLK" ∷ "OCLKB" ∷ "CLKDIVP" ∷ "DCLK" ∷ "REFCLK" ∷ "C0" ∷ "C1" ∷ "WCLK"
    ∷ "PSCLK" ∷ "CONVSTCLK" ∷ "CLKIN" ∷ "USRCCLKO" ∷ []

-- A dictionary from port names to sets of primitives, as its entries: `prim in table.get(port, ())`.
abbrev pub Table : Type 0
Table = List (String × List String)

abbrev pub is_on : Table → String → String → Bool
is_on [] prim port = false
is_on ((p, prims) ∷ t) prim port =
    let rest = is_on t prim port in if str_eq p port then is_one_of prim prims else rest

abbrev pub not_clock_on : Table
not_clock_on = ("C", "DSP48E1" ∷ []) ∷ []

abbrev pub clock_out_on : Table
clock_out_on =
    ("CFGCLK", "STARTUPE2" ∷ "USR_ACCESSE2" ∷ [])
    ∷ ("CFGMCLK", "STARTUPE2" ∷ [])
    ∷ ("TCK", "BSCANE2" ∷ [])
    ∷ ("DRCK", "BSCANE2" ∷ [])
    ∷ ("O", "IBUFDS_GTE2" ∷ [])
    ∷ ("ODIV2", "IBUFDS_GTE2" ∷ [])
    ∷ []

abbrev pub pad_on : Table
pad_on =
    ("VP", "XADC" ∷ []) ∷ ("VN", "XADC" ∷ []) ∷ ("VAUXP", "XADC" ∷ []) ∷ ("VAUXN", "XADC" ∷ []) ∷ []

abbrev pub gate_on : Table
gate_on = ("G", "LDCE" ∷ "LDPE" ∷ []) ∷ ("GE", "LDCE" ∷ "LDPE" ∷ []) ∷ []

abbrev pub asyncs : List String
asyncs = "CLR" ∷ "PRE" ∷ "PWRDWN" ∷ "GSR" ∷ "GTS" ∷ []

abbrev pub async_on : Table
async_on =
    ("S0", "BUFGCTRL" ∷ [])
    ∷ ("S1", "BUFGCTRL" ∷ [])
    ∷ ("CE0", "BUFGCTRL" ∷ [])
    ∷ ("CE1", "BUFGCTRL" ∷ [])
    ∷ ("IGNORE0", "BUFGCTRL" ∷ [])
    ∷ ("IGNORE1", "BUFGCTRL" ∷ [])
    ∷ ("S", "BUFGMUX" ∷ "BUFGMUX_1" ∷ "BUFGMUX_CTRL" ∷ [])
    ∷ ("CE", "BUFGCE" ∷ "BUFGCE_1" ∷ "BUFHCE" ∷ "BUFMRCE" ∷ "BUFR" ∷ [])
    ∷ ("RESET", "XADC" ∷ "IN_FIFO" ∷ "OUT_FIFO" ∷ [])
    ∷ []

abbrev pub rst_async_prefixes : List String
rst_async_prefixes = "FIFO" ∷ "MMCM" ∷ "PLL" ∷ "ISERDES" ∷ "OSERDES" ∷ "IDELAYCTRL" ∷ []

abbrev pub srtype_dependent : List String
srtype_dependent = "IDDR" ∷ "IDDR_2CLK" ∷ "ODDR" ∷ []

abbrev pub drps : List String
drps = "DADDR" ∷ "DI" ∷ "DO" ∷ "DEN" ∷ "DWE" ∷ "DRDY" ∷ []

abbrev pub drp_prefixes : List String
drp_prefixes = "MMCM" ∷ "PLL" ∷ "XADC" ∷ []

abbrev pub is_buf : String → Bool
is_buf prim = starts_with prim ("BUF" ∷ [])

unfoldable pub input_class : String → String → PortClass
input_class prim port =
    if starts_with prim ("IBUF" ∷ []) && is_one_of port ("I" ∷ "IB" ∷ []) || is_on pad_on prim port
    then pad
    else if starts_with prim drp_prefixes && is_one_of port drps
    then drp
    else if is_on gate_on prim port
    then gate
    else if is_one_of port clocks && not (is_on not_clock_on prim port)
    then clock
    else if is_one_of port ("I0" ∷ "I1" ∷ []) && starts_with prim ("BUFGCTRL" ∷ "BUFGMUX" ∷ [])
    then clock
    else if str_eq port "I" && is_buf prim
    then clock
    else if is_one_of port asyncs || is_on async_on prim port
    then async
    else if str_eq port "RST" && starts_with prim rst_async_prefixes
    then async
    else plain

unfoldable pub output_class : String → String → PortClass
output_class prim port =
    if starts_with prim ("OBUF" ∷ []) && is_one_of port ("O" ∷ "OB" ∷ [])
    then pad
    else if starts_with prim drp_prefixes && is_one_of port drps
    then drp
    else if starts_with port ("CLKOUT" ∷ "CLKFBOUT" ∷ []) || is_on clock_out_on prim port
    then clock_out
    else if str_eq port "O" && is_buf prim
    then clock_out
    else plain

unfoldable pub default_class : String → String → String → PortClass
default_class prim port direction =
    if str_eq direction "inout"
    then inout
    else if str_eq direction "input"
    then input_class prim port
    else output_class prim port

-- `class_note`
pub data Note : Type 0 where
  depends_on_srtype plain_despite_clk : Note

abbrev pub holds : Chars → Chars → Bool
holds [] p = starts [] p
holds (c ∷ s) p = let rest = holds s p in starts (c ∷ s) p || rest

abbrev pub is_plain : PortClass → Bool
is_plain plain = true
is_plain _ = false

unfoldable pub class_note : String → String → String → Option Note
unfolding default_class
class_note prim port direction =
    if is_one_of prim srtype_dependent && is_one_of port ("S" ∷ "R" ∷ [])
    then some depends_on_srtype
    else if holds (codes port) (codes "CLK") && is_plain (default_class prim port direction)
    then some plain_despite_clk
    else none
