-- ===== src/Std.antt =====
-- What the launcher uses of Go's standard library: strings, strconv, net.ParseIP and flag.
pub mod Strings
pub mod Strconv
pub mod Net
pub mod Flag
pub mod Path
