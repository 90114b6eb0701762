-- ===== src/Protocol/Names.antt =====
-- The names of the enumerators in RankingServer/include/RANKING_PROTOCOL_generated.h.
use Prim.Native.String.{String}
use ranking_server.Base.{
  ℕ, List, [], ◌∷◌, Option, some, Bool, true, false, ltb, if◌then◌else◌, get_elem?,
}
use ranking_server.Protocol.MessageContent

-- The last entry, a null pointer, is left out: the list ends there.
abbrev pub enum_names_message_content : List String
enum_names_message_content =
    "NONE" ∷ "REQUEST_SAVE_SCORE" ∷ "RESPONSE_SAVE_SCORE" ∷ "REQUEST_PLAYER_RANKING"
    ∷ "RESPONSE_PLAYER_RANKING" ∷ []

-- `none` would be a read behind the names.
unfoldable pub enum_name_message_content : ℕ → Option String
enum_name_message_content e =
    if ltb MessageContent.response_player_ranking e
    then some ""
    else get_elem? enum_names_message_content e

-- `enum MESSAGETYPE : int32_t`, from BEGIN, 0, to END, 5.
abbrev pub messagetype_end : ℕ
messagetype_end = 5

abbrev pub enum_names_messagetype : List String
enum_names_messagetype =
    "BEGIN" ∷ "REQUEST_SAVE_SCORE" ∷ "RESPONSE_SAVE_SCORE" ∷ "REQUEST_PLAYER_RANKING"
    ∷ "RESPONSE_PLAYER_RANKING" ∷ "END" ∷ []

-- A negative value has a large pattern, and is out of range as well.
unfoldable pub enum_name_messagetype : ℕ → Option String
enum_name_messagetype e =
    if ltb messagetype_end e then some "" else get_elem? enum_names_messagetype e

abbrev pub enum_values_messagetype : List ℕ
enum_values_messagetype = 0 ∷ 1 ∷ 2 ∷ 3 ∷ 4 ∷ messagetype_end ∷ []

abbrev pub enum_values_message_content : List ℕ
enum_values_message_content =
    MessageContent.none_content ∷ MessageContent.request_save_score
    ∷ MessageContent.response_save_score ∷ MessageContent.request_player_ranking
    ∷ MessageContent.response_player_ranking ∷ []

-- The type argument of MessageContentTraits: a table of the union, or any other type.
pub data TableType : Type 0 where
  request_save_score response_save_score request_player_ranking response_player_ranking other :
      TableType

-- `MessageContentTraits<T>::enum_value`
abbrev pub traits_enum_value : TableType → ℕ
traits_enum_value request_save_score = MessageContent.request_save_score
traits_enum_value response_save_score = MessageContent.response_save_score
traits_enum_value request_player_ranking = MessageContent.request_player_ranking
traits_enum_value response_player_ranking = MessageContent.response_player_ranking
traits_enum_value other = MessageContent.none_content

abbrev pub bool_byte : Bool → ℕ
bool_byte true = 1
bool_byte false = 0
