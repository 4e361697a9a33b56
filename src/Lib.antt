-- ===== src/Lib.antt =====
-- The verification library of xilinx-unittests, a test suite that cross-checks simulators and
-- golden models of FPGA primitives against the vendor's documentation.
--
-- A generator writes a stimulus with a builder; the stimulus is validated, replayed through a
-- golden model, and compiled for a simulator's testbench; the traces of the runs are compared. The
-- parts that are modelled, and where:
--
--   Prelude     shared names, Boolean tests, results with errors, and a stable sort
--   Flop        models/xut_models/7series/_common/flops.py and its four subclasses: `SdrFlop`, a
--               record `Flop`, with `power_on`, `set_input`, `clock_edge`, `glbl` and `outputs` as
--               functions that return the new model or what the method raises. `Flop/Calls` holds the
--               calls that tools/xut/golden.py makes, `Flop/Table` the logic table of the user guide
--               as an independent description, the other children the proofs
--   Xvec        tools/xut/formats/xvec.py: a stimulus, and the rules for one clock and one event.
--               `Xvec/Timing` is `_check_structure`, `Xvec/Structure` is `check_structure` and
--               `checkable`, `Xvec/FreeClocks` is `free_runs` and `free_clock_edges`
--   Names       tools/xut/formats/common.py: the grammar of the names that the formats share
--   Xtr         tools/xut/formats/xtr.py: `Trace`, `add`, `concat` and `_group`; `Xtr/Compare` is
--               `compare`, what a run shows against what the golden model expects, and
--               `Xtr/Diff` is `diff`, two runs against each other
--   Dut         tools/xut/wrap.py: `DutMap`, the bits of a wrapper's vectors, and `_check_map`
--   Wrap        tools/xut/wrap.py: `build_map`; `Wrap/Verilog` is `render_wrapper` without its fixed text,
--               `Wrap/Literal` the reading of a Verilog literal and `Wrap/Attribute` its writing, for the
--               attributes of the kinds bits, string and integer
--   Validate    tools/xut/validate.py: its constants and the event-gap rule; `Validate/Races` has the rules
--               on what may race with glbl's release of GSR, a clock edge or the stop of a clock,
--               `Validate/Report` the rules on the header and the map, `Validate/Groups` those on the events
--               of one time, and `Validate/Whole` is `validate`, with the proofs below it
--   Golden      tools/xut/golden.py: `Golden/Model` is the API of models/xut_models/base.py as a record of
--               operations, `Golden/Ports` what a replay reads of a stimulus and a
--               wrapper, `Golden/Replay` is `replay` for any model, and `Golden/Replay/Steps` its
--               independent description, the steps that the stimulus alone sets; `Xtr/Prov` is `bit_prov`
--               with the `prov_token` that it reads
--   Crosscheck  tools/xut/crosscheck.py: `View`, a result that was read; what may be compared of two views,
--               `Crosscheck/Companion` is `companion_gap` and `verilator_unconfirmed`, `Crosscheck/Findings`
--               the findings and their marks, `Crosscheck/Classify` is `classify`, with its simulators in
--               `Crosscheck/Sims` and its `_golden_vs_sims` in `Crosscheck/Golden` and `Crosscheck/Spots`, over
--               the points and issues of `Crosscheck/Points`; `Crosscheck/Check` is `check` over the model
--               sources, with the accounts of `Crosscheck/Accounts`, and `Crosscheck/Report` the issues of a
--               result, the verdict and the exit code
--   StimCompile tools/xut/stimcompile.py: the operation words of the testbench; `StimCompile/Whole` is
--               `compile_vec` with its guards
--   PortClass   tools/xut/catalog/portclass.py: the default class of a port, by the names of the primitive
--               and the port
--   StimGen     tools/xut/stimgen.py: `VecBuilder`, its attributes a record `Builder`, each method a
--               function that returns the new builder or what the method raises. A generator is a
--               list of calls (`StimGen/Commands`)
--
-- Text is a list of characters where the code looks into it, and a string where it only compares it.
-- A name of a stimulus is a word, `clk<N>` or the `S<n>` of an automatic label. Numbers are natural:
-- the rules of the format refuse a negative time, period or phase. Every loop is a recursion on a list
-- or on a count; fuel have the edges of a free clock, one more than the last time of the run: a
-- period is at least one, so the time of a rise passes the end by then, and the theorem on the edges
-- says that none is lost, and the writing of a number in decimal and in hexadecimal, one round more than
-- the number, of which the last digit is always written.
--
-- The test of a label is a parameter of the rules of `Xvec` and of the builder's `sample`, since their
-- names are not texts; on texts it is that of `Names`. The check that a stimulus survives a write and
-- read as text is a parameter of `validate`, as long as the text form is not modelled. Not modelled: the
-- processes, files and containers of the runners, the command line, the catalog's reading of the vendor's
-- PDF and Verilog, the rewriting for Verilator, which works on the trees of a parser that is a library,
-- and, so far, the text form of the two formats, the messages of the validator, what a replay records of
-- the coverage, the notes of the cross-check and its files of expected divergences, the literals of real
-- numbers and the allowed values of an attribute, and the reports. The views of a model source are given
-- with those of the declared runners that have no result, as not run. The texts of findings and issues are
-- values; the name of a path without its folder and suffix, which is pathlib's, is a
-- parameter of the marking of a finding.
pub mod Prelude
pub mod Names
pub mod Flop
pub mod Xvec
pub mod Dut
pub mod Validate
pub mod StimGen
pub mod Xtr
pub mod StimCompile
pub mod Golden
pub mod Crosscheck
pub mod PortClass
pub mod Wrap
