-- ===== src/Go.antt =====
-- What the program uses of Go's standard library: byte strings, strings.TrimSpace,
-- unicode/utf8, strconv and encoding/json's validity test.
pub mod Bytes
pub mod Space
pub mod Utf8
pub mod Strconv
pub mod Int64
pub mod Strings
pub mod Runes
pub mod Json
