-- ===== src/Outside.antt =====
-- Interfaces of the libraries and services that the program calls and that are not part of it. Each
-- is a record of operations with the laws that the proofs use; `Outside/Instances` has a value of each.
pub mod Flat
pub mod Json
pub mod Redis
pub mod Odbc
pub mod Calendar
pub mod Instances
pub mod Verifier
