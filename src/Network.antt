-- ===== src/Network.antt =====
-- The network half of the server: Client, Session and NetworkManager under RankingServer/include and
-- RankingServer/src.
pub mod State
pub mod Client
pub mod Session
pub mod Manager
pub mod Ownership
pub mod Calls
pub mod Rounds
pub mod Wire
pub mod Leaks
pub mod Supply
pub mod Returns
pub mod Closed
pub mod Steady
pub mod Accepts
pub mod Served
pub mod Passed
pub mod Arrival
pub mod Starved
