-- ===== src/Classes.antt =====
-- Classes and their instances: squirrel/sqclass.h and squirrel/sqclass.cpp.
pub mod Index
pub mod Members
pub mod Tables
pub mod Class
pub mod Sound
pub mod Carried
pub mod Places
pub mod Overrides
pub mod Fields
pub mod Methods
pub mod Natives
pub mod Writing
pub mod Slots
pub mod Register
pub mod UdSize
pub mod Store
pub mod Locks
pub mod Lineage
pub mod Layout
pub mod Instance
pub mod Cells
pub mod NativeFields
pub mod Accesses
pub mod Sets
