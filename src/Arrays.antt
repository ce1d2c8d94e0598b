-- ===== src/Arrays.antt =====
-- Arrays: squirrel/squtils.h and squirrel/sqarray.h.
pub mod Vector
pub mod Contents
pub mod Operations
