-- ===== src/PortClass/Tests.antt =====
-- The classes of a flip-flop's clock, and the theorem on directions at it.
use xilinx_unittests.Prelude.{true, ◌≡◌, refl}
use xilinx_unittests.PortClass.{PortClass, default_class, input_class}
use xilinx_unittests.PortClass.Direction.{fits, default_class-fits}

clock_of_flop : default_class "FDRE" "C" "input" ≡ PortClass.clock
unfolding default_class input_class
clock_of_flop = refl

default_class-fits_example : fits "input" (default_class "FDRE" "C" "input") ≡ true
default_class-fits_example = default_class-fits "FDRE" "C" "input"
