-- ===== src/Crosscheck/Classify/Total.antt =====
-- `classify` gives its findings: its assertions hold, and every finding is of the test.
