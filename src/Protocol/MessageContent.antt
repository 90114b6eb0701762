-- ===== src/Protocol/MessageContent.antt =====
-- The values of `enum MessageContent : uint8_t`
-- of RankingServer/include/RANKING_PROTOCOL_generated.h.
use ranking_server.Base.{ℕ}

abbrev pub none_content : ℕ
none_content = 0

abbrev pub request_save_score : ℕ
request_save_score = 1

abbrev pub response_save_score : ℕ
response_save_score = 2

abbrev pub request_player_ranking : ℕ
request_player_ranking = 3

abbrev pub response_player_ranking : ℕ
response_player_ranking = 4
