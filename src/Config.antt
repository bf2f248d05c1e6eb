-- ===== src/Config.antt =====
-- src/config.rs: the configuration, its constants, the variants' registers and the validation.
pub mod Registers
pub mod Validate
pub mod Types
pub mod Constants
