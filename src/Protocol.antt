-- ===== src/Protocol.antt =====
-- RankingServer/include/RANKING_PROTOCOL_generated.h. A table is read through the library's accessors
-- at the field's vtable offset; a builder is the list of the calls it makes. An `int32_t` is its 32-bit
-- pattern, an `int64_t` its 64-bit one, a `bool` 0 or 1.
pub mod MessageContent
pub mod Names
pub mod RequestSaveScore
pub mod ResponseSaveScore
pub mod RequestPlayerRanking
pub mod ResponsePlayerRanking
pub mod RoundTrip
pub mod Verify
pub mod Envelope
pub mod Roots
