-- ===== src/Opcodes.antt =====
-- src/opcodes.cpp: the handlers of the opcodes.
pub mod Build
pub mod Memory
pub mod Jumps
pub mod Arithmetic
pub mod Handlers
pub mod Words
pub mod Steady
pub mod Table
