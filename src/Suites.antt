-- ===== src/Suites.antt =====
-- Suite runs and what the checks of a fix conclude from them: src/autocontribute/suite_runs.py and the tests
-- part of src/autocontribute/fix_checks.py.
pub mod Results
pub mod Baseline
pub mod Sorted
pub mod Report
pub mod Regression
pub mod Unbroken
pub mod RedGreen
pub mod Reproduced
mod Tests
