-- ===== src/Rig.antt =====
-- test_rig/: the firmware of the test rig for manufacturing, but for its copy of the CMSIS-DAP library.
pub mod Button
pub mod Pins
pub mod Driving
pub mod Levels
pub mod Dap
pub mod Phases
pub mod Answers
pub mod Exchange
mod Tests
