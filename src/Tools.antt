-- ===== src/Tools.antt =====
-- src/tools/encrypt.c: the container in which compiled Stellar programs are shipped encrypted.
pub mod Salt
pub mod Kdf
pub mod Cipher
pub mod Mac
pub mod Container
pub mod Host
