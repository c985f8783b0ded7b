-- ===== src/Go.antt =====
-- What the program uses of the Go language and its standard library: byte strings, runes, decimal
-- numbers and an interface to the floats.
pub mod Text
pub mod Utf8
pub mod Number
pub mod Strings
pub mod Decimal
pub mod Trim
pub mod Affix
pub mod Float
