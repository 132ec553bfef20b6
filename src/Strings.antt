-- ===== src/Strings.antt =====
-- What src/ uses of the standard library's strings: UTF-8 decoding, decimal numbers, `split_once`.
-- A `String` is the list of its UTF-8 bytes.
pub mod Utf8
pub mod Decimal
pub mod Split
pub mod Trim
