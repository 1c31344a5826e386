-- ===== src/Common.antt =====
-- common/: what the firmware, the boot loader and the test rig share.
pub mod Nvm
pub mod Gpio
pub mod Dma
pub mod Rom
