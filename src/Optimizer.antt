-- ===== src/Optimizer.antt =====
-- The bytecode optimizer: squirrel/compiler/optimizer.cpp.
pub mod Code
pub mod Fold
pub mod Folded
pub mod Window
pub mod Cut
pub mod Targets
pub mod Removal
