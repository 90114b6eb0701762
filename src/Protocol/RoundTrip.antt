-- ===== src/Protocol/RoundTrip.antt =====
-- What the accessors of RANKING_PROTOCOL_generated.h read from a table that its builders made.
use ranking_server.Base.{ℕ, ◌<◌, ◌^◌, ◌≡◌, ◌≢◌, List, ◌++◌, some, none, arith, get_elem?-ne_none}
use ranking_server.Outside.Flat.{FlatBuffers}
use ranking_server.Protocol.Names.{
  enum_name_message_content, enum_name_messagetype, enum_names_message_content,
  enum_names_messagetype,
}
use ranking_server.Protocol.RequestSaveScore
use ranking_server.Protocol.RequestPlayerRanking

module _ (fb : FlatBuffers) (rest : List ℕ) where
  -- Each field of a request to save a score is read as it was made, whatever follows it in the
  -- buffer, where the values are of the fields' types.
  pub request_save_score_roundtrip :
      (id : List ℕ) (score last_update : ℕ)
      → score < 2 ^ 32
      → last_update < 2 ^ 64
      → let t = fb.root (fb.finish (RequestSaveScore.create id score last_update) ++ rest) in
        (RequestSaveScore.player_id fb t ≡ some id)
        × (RequestSaveScore.score fb t ≡ score)
        × (RequestSaveScore.last_update fb t ≡ last_update)
  request_save_score_roundtrip id score last_update int32 int64 =
      let ss = RequestSaveScore.create id score last_update in
      (
        fb.get_string-finish ss rest 4 (omega arith) (omega arith),
        fb.get_field-finish ss rest 32 6 0 (omega arith) (omega arith),
        fb.get_field-finish ss rest 64 8 0 (omega arith) (omega arith),
      )

  -- A request for a ranking is read as it was made.
  pub request_player_ranking_roundtrip :
      (id : List ℕ)
      → RequestPlayerRanking.player_id fb
          (fb.root (fb.finish (RequestPlayerRanking.create id) ++ rest))
        ≡ some id
  request_player_ranking_roundtrip id =
      fb.get_string-finish (RequestPlayerRanking.create id) rest 4 (omega arith) (omega arith)

-- EnumNameMessageContent and EnumNameMESSAGETYPE never read behind the end of their tables of names.
pub enum_name_in_table :
    (e : ℕ) → (enum_name_message_content e ≢ none) × (enum_name_messagetype e ≢ none)
unfolding enum_name_message_content enum_name_messagetype
enum_name_in_table e = ground (
  arith,
  get_elem?-ne_none enum_names_message_content e,
  get_elem?-ne_none enum_names_messagetype e,
)
