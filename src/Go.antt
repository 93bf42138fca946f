-- ===== src/Go.antt =====
-- What the code uses of Go's standard library: `strings` and `path/filepath`.
pub mod Strings
pub mod Filepath
pub mod Texts
pub mod Replace
