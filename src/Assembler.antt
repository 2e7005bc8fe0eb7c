-- ===== src/Assembler.antt =====
-- src/assembler.hpp and the methods of src/assemble.cpp on the assembler's state: the token
-- cursor, the sections, the symbols and the work that waits for them.
mod State
mod Cursor
mod Sections
mod Symbols
pub mod Labels
pub mod Steps
pub mod Steady
pub mod Methods
pub mod Keyed
pub mod Sound
pub mod Yields
unfoldable pub use State.*
unfoldable pub use Cursor.*
unfoldable pub use Sections.*
unfoldable pub use Symbols.*
