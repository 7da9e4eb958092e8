-- ===== src/Go.antt =====
-- What the program uses of Go's standard library, of its built-in maps and of its panics.
pub mod Strings
pub mod Strconv
pub mod Map
pub mod Runtime
pub mod Result
