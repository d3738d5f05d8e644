-- ===== src/Stellar.antt =====
-- src/stellar: the language of Nova64, its bytecode and the machine that runs it.
pub mod Fpu
pub mod Opcode
pub mod Vm
pub mod Errors
pub mod Compiler
