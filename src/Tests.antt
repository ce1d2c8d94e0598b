-- ===== src/Tests.antt =====
-- The theorems at concrete inputs: values for the serializer, a toy float unit for the VM and the
-- optimizer, a small blob, small tables and arrays, names of types, function types, and a few classes.
mod Stream
mod Machine
mod Code
mod Inference
mod Tables
mod Vectors
mod Names
mod Classes
mod Signatures
