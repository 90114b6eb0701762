-- ===== src/Outside/Instances.antt =====
-- A value of each interface, which shows that its laws can hold together. The tests run on them.
pub mod Slots
pub mod Members
pub mod Entries
