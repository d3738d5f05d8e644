-- ===== src/Utils.antt =====
-- The string buffers of src/utils/string.c.
pub mod Strings
