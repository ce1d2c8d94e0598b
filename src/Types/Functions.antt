-- ===== src/Types/Functions.antt =====
-- Function types as texts: squirrel/compiler/sqtypeparser.cpp.
pub mod Text
pub mod Scanner
pub mod Arguments
pub mod Parse
pub mod Ends
pub mod Steps
pub mod Total
pub mod Aligned
