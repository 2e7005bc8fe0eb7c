-- ===== src/Tokenizer.antt =====
-- src/tokenizer.cpp and src/raw_split.cpp: from the text to tokens.
pub mod Numbers
pub mod Parse
pub mod Split
pub mod Words
pub mod Strings
pub mod Comments
pub mod Backslash
