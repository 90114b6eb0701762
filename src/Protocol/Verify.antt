-- ===== src/Protocol/Verify.antt =====
-- The `Verify` of the four tables and of the union, in
-- RankingServer/include/RANKING_PROTOCOL_generated.h.
use ranking_server.Base.{ℕ, List, ◌∷◌, Option, none, some, ◌>>=◌, ◌==◌, if◌then◌else◌, length}
use ranking_server.Outside.Flat.{FlatBuffers}
use ranking_server.Outside.Verifier.{Verifier}
use ranking_server.Protocol.MessageContent
use ranking_server.Protocol.RequestSaveScore
use ranking_server.Protocol.ResponseSaveScore
use ranking_server.Protocol.RequestPlayerRanking
use ranking_server.Protocol.ResponsePlayerRanking

module _ (fb : FlatBuffers) (v : Verifier fb) where
  unfoldable pub verify_request_save_score : fb.Table → v.State → Option v.State
  verify_request_save_score t s0 = do
    s1 ← v.table_start t s0
    s2 ← v.offset t RequestSaveScore.vt_player_id s1
    s3 ← v.string t RequestSaveScore.vt_player_id s2
    s4 ← v.field t RequestSaveScore.vt_score 4 s3
    s5 ← v.field t RequestSaveScore.vt_last_update 8 s4
    v.end_table s5

  unfoldable pub verify_response_save_score : fb.Table → v.State → Option v.State
  verify_response_save_score t s0 = do
    s1 ← v.table_start t s0
    s2 ← v.offset t ResponseSaveScore.vt_player_id s1
    s3 ← v.string t ResponseSaveScore.vt_player_id s2
    s4 ← v.field t ResponseSaveScore.vt_feedback 1 s3
    v.end_table s4

  unfoldable pub verify_request_player_ranking : fb.Table → v.State → Option v.State
  verify_request_player_ranking t s0 = do
    s1 ← v.table_start t s0
    s2 ← v.offset t RequestPlayerRanking.vt_player_id s1
    s3 ← v.string t RequestPlayerRanking.vt_player_id s2
    v.end_table s3

  unfoldable pub verify_response_player_ranking : fb.Table → v.State → Option v.State
  verify_response_player_ranking t s0 = do
    s1 ← v.table_start t s0
    s2 ← v.offset t ResponsePlayerRanking.vt_player_id s1
    s3 ← v.string t ResponsePlayerRanking.vt_player_id s2
    s4 ← v.field t ResponsePlayerRanking.vt_score 4 s3
    s5 ← v.field t ResponsePlayerRanking.vt_ranking 4 s4
    s6 ← v.field t ResponsePlayerRanking.vt_in_ranking 1 s5
    s7 ← v.field t ResponsePlayerRanking.vt_feedback 1 s6
    v.end_table s7

  -- The verifier's VerifyTable: a null pointer passes.
  abbrev pub verify_table :
      (fb.Table → v.State → Option v.State) → Option fb.Table → v.State → Option v.State
  verify_table verify none s = some s
  verify_table verify (some t) s = verify t s

  -- VerifyMessageContent
  unfoldable pub verify_message_content : Option fb.Table → ℕ → v.State → Option v.State
  verify_message_content obj type s =
      if type == MessageContent.none_content
      then some s
      else if type == MessageContent.request_save_score
      then verify_table verify_request_save_score obj s
      else if type == MessageContent.response_save_score
      then verify_table verify_response_save_score obj s
      else if type == MessageContent.request_player_ranking
      then verify_table verify_request_player_ranking obj s
      else if type == MessageContent.response_player_ranking
      then verify_table verify_response_player_ranking obj s
      else some s

  -- The loop of VerifyMessageContentVector, over vectors of one length.
  unfoldable pub verify_each : List (Option fb.Table) → List ℕ → v.State → Option v.State
  verify_each (obj ∷ objs) (type ∷ types) s = do
    s' ← verify_message_content obj type s
    verify_each objs types s'
  verify_each _ _ s = some s

  -- VerifyMessageContentVector; `none` is a null vector.
  unfoldable pub verify_message_content_vector :
      Option (List (Option fb.Table)) → Option (List ℕ) → v.State → Option v.State
  verify_message_content_vector none none s = some s
  verify_message_content_vector none (some types) s = none
  verify_message_content_vector (some values) none s = none
  verify_message_content_vector (some values) (some types) s =
      if length values == length types then verify_each values types s else none
