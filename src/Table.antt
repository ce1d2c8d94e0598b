-- ===== src/Table.antt =====
-- The hash table: squirrel/sqtable.h and squirrel/sqtable.cpp.
pub mod Nodes
pub mod Slots
pub mod Chains
pub mod Count
pub mod Placing
pub mod Valid
pub mod Places
pub mod Writes
pub mod Insert
pub mod Sizes
pub mod Rehash
pub mod Updates
pub mod Remove
pub mod Create
pub mod Copies
pub mod Iteration
