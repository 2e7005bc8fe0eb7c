-- ===== src/PseudoOps.antt =====
-- src/pseudo_ops.cpp: data, reserved space and included files.
pub mod Table
pub mod Handlers
pub mod Data
pub mod Steady
