-- ===== src/Examples.antt =====
-- The theorems of the library at concrete inputs, and tests of the definitions.
pub mod Streams
mod Texts
mod Integers
mod Callbacks
