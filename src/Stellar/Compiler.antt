-- ===== src/Stellar/Compiler.antt =====
-- `compile` of src/stellar/stellar_compiler.c, as built with STELLAR_HOST.
pub mod Scan
pub mod Symbols
pub mod State
pub mod Scopes
pub mod Statements
pub mod Names
pub mod Loop
pub mod Progress
pub mod Encoding
pub mod Tests
