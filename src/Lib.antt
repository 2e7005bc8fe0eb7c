-- ===== src/Lib.antt =====
-- bigassm: a one-pass assembler for 64- and 128-bit RISC-V, in C++ under src/.
--
-- A text becomes words and tokens (Assembler::split and Assembler::parse), the tokens drive handlers
-- that append to sections (Assembler::assemble), and what depends on an address that is not known
-- yet is scheduled as a closure under the symbol's name. At the end (Assembler::finish) the labels
-- that are left are placed, the sections get base addresses, and the closures patch the output.
--
-- The files, each with the part of src/ that it models:
--   Instr, Instr/*   src/rv32i_instr.hpp, src/instruction_list.hpp: an instruction is its 32-bit
--                    word, a bit-field a setter and a getter
--   Types, Types/*   src/types.hpp, src/token.cpp: tokens; errors as values of Result
--   Section          src/section.hpp, src/section.cpp: one section; Section/Align on alignment
--   Assembler/*      src/assembler.hpp, src/assemble.cpp: the state, the token cursor, sections,
--                    symbols; a method is a function of the monad Asm; Assembler/Labels on labels,
--                    Steps, Steady and Methods, and Steady below, on the kinds of changes of the
--                    state, Keyed and Sound on what they all keep, Yields on what methods return
--   Constants        Assembler::resolve_constants; Constants/* on its end and its results, Operators
--                    on what the operators stand for
--   Patch            the closures of src/opcodes.cpp and src/directive.cpp, as the constructors of
--                    Scheduled with `run_scheduled`; Patch/* on LA, the branches, the
--                    jumps and FARCALL, and on the layout behind the closures
--   Opcodes/*        src/opcodes.cpp: the handlers and their table; Opcodes/Build/* on LI and SET,
--                    Opcodes/Memory/* on loads and stores, Opcodes/Arithmetic/* on immediates
--                    and registers, Opcodes/Words on all that they return
--   Registers        src/registers.cpp; Registers/Names on the names
--   PseudoOps/*      src/pseudo_ops.cpp; PseudoOps/Data on data
--   Tokenizer/*      src/tokenizer.cpp, src/raw_split.cpp; Tokenizer/Words on words and
--                    blanks, Strings on quoted strings, Backslash on escapes, Comments on comments
--   Directive        src/directive.cpp; Assemble and Finish the rest of src/assemble.cpp, with their
--                    theorems: Assemble/Termination on the loop, Assemble/Output on the output of
--                    instructions, Assemble/Addresses on OP_LA from its tokens to the registers
--                    and on OP_LAQ; Finish/Rounds, Starts and Disjoint on the base addresses,
--                    Finish/Work on the scheduled work, Finish/Sound on what finish keeps
--   Hex              src/hex128.cpp; Host and Main src/main.cpp; Main/Loads from the
--                    last labels to a loader of the file, Main/Run on the whole of main
--   Elf/*            src/elfwriter.cpp for 64 and for 128 bits: Format the structures of src/elf128.h,
--                    Vector the growing file, Tables the two kinds of table, Writer the rest; Reader
--                    is no code but how the ABI reads a file; the others lead to the theorems
--   Rv128            no code: base instructions of RV128I as the ISA manual has them, read from the
--                    words, for the theorems on what the assembled code does
--   Prelude/*        shared types, lists, maps, words and laws of the bit operations
--   Tests/*          runs and instances
--
-- Words are natural numbers below 2 ^ w with the wrap-around written out; a signed word is its bit
-- pattern. A pointer to a section is the section's key. std::map keeps its keys in order; the order
-- in which the ELF writer gets the symbols from an unordered_map is a parameter. What C++ leaves
-- undefined, as the sums of opcodes.cpp that overflow int, a division by zero and a failed assert
-- are errors of their own. The loop of resolve_constants has the number of tokens as fuel, since
-- each round takes one; the loop of assemble has a given fuel, for its rounds and those of included
-- files.
--
-- Not modelled: printed messages, and the file system, which is the parameter Host. The headers of
-- the ELF files stand in records of their own: an access to one is undefined once the vector that
-- holds them has outgrown the 262144 bytes that it was reserved for.
pub mod Prelude
pub mod Instr
pub mod Types
pub mod Section
pub mod Assembler
pub mod Constants
pub mod Patch
pub mod Opcodes
pub mod Registers
pub mod PseudoOps
pub mod Tokenizer
pub mod Host
pub mod Directive
pub mod Assemble
pub mod Finish
pub mod Hex
pub mod Elf
pub mod Main
pub mod Rv128
pub mod Tests
