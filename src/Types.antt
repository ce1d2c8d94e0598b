-- ===== src/Types.antt =====
-- Type masks at compile time: squirrel/compiler/typeinference.cpp and squirrel/compiler/sqtypeparser.cpp.
pub mod Masks
pub mod Names
pub mod Parses
pub mod Numbers
pub mod Sums
pub mod Functions
