-- ===== src/Utf8.antt =====
-- nl-utf8.c: characters as sequences of one to six bytes.
pub mod Encode
pub mod Decode
pub mod Characters
pub mod Texts
pub mod Conversion
mod Tests
