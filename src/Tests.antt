-- ===== src/Tests.antt =====
-- Runs of the program at concrete inputs, and the theorems at inputs that meet their hypotheses.
mod Samples
mod Programs
mod Files
mod Running
mod Linking
mod Loading
mod Parsing
mod Layouts
mod Assembling
mod Whole
