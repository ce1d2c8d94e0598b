-- ===== src/Serializer.antt =====
-- sqstdlib/sqstdserialization.cpp, with no available classes.
pub mod Value
pub mod Bytes
pub mod Write
pub mod Read
pub mod Valid
pub mod Leaves
pub mod States
pub mod Frames
pub mod RoundTrip
pub mod Progress
pub mod Total
pub mod Refusals
