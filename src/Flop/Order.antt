-- ===== src/Flop/Order.antt =====
-- Inputs that change at one time step arrive together: the model may not depend on their order.
use xilinx_unittests.Prelude.{Bool, ◌≡◌, ◌≢◌, refl, arith}
use xilinx_unittests.Flop.{Flop, Port, drive}

-- Driving two different pins gives the same model, claims and provenance included, in either order.
pub drive_comm :
    (p r : Port) (v w : Bool) (f : Flop) → p ≢ r → drive p v (drive r w f) ≡ drive r w (drive p v f)
unfolding drive
drive_comm Port.c Port.c v w f h = absurd (h refl)
drive_comm Port.ce Port.ce v w f h = absurd (h refl)
drive_comm Port.d Port.d v w f h = absurd (h refl)
drive_comm Port.ctrl Port.ctrl v w f h = absurd (h refl)
drive_comm Port.ctrl _ v w f h = ground arith
drive_comm _ Port.ctrl v w f h = ground arith
drive_comm _ _ v w f h = refl
