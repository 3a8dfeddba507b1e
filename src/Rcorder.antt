-- ===== src/Rcorder.antt =====
-- src/rcorder.c: the structures, the functions that read the files and those that order them.
pub mod Types
pub mod Unlink
pub mod Hash
pub mod Order
pub mod Words
pub mod Build
pub mod Crunch
pub mod Main
pub mod Assoc
mod Tests
mod Examples
