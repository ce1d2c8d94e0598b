-- ===== src/Vm.antt =====
-- The virtual machine: squirrel/sqvm.cpp.
pub mod Object
pub mod Shift
pub mod Arith
pub mod Compare
pub mod Laws
