-- ===== src/Examples.antt =====
-- The theorems at concrete inputs, and tests of the definitions.
mod Queue
mod Packets
mod Setting
mod Sessions
mod Startup
mod Heap
mod Whole
mod Threads
mod Faults
mod Torn
mod Renewal
mod Conversation
mod Handles
mod Server
