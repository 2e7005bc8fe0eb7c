-- ===== src/Elf.antt =====
-- src/elfwriter.cpp, for both of its instances: the ELF file of the finished assembler.
pub mod Format
pub mod Vector
pub mod Tables
pub mod Writer
pub mod Reader
pub mod Fields
pub mod Symbols
pub mod Parts
pub mod Layout
pub mod Segments
pub mod Loading
pub mod Linking
pub mod Debugging
pub mod Overrun
