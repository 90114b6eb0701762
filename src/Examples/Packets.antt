-- ===== src/Examples/Packets.antt =====
-- Names of RANKING_PROTOCOL_generated.h at a concrete input.
use ranking_server.Base.{◌≢◌, none}
use ranking_server.Protocol.Names.{enum_name_message_content, enum_name_messagetype}
use ranking_server.Protocol.RoundTrip.{enum_name_in_table}

enum_name_in_table_example : (enum_name_message_content 3 ≢ none) × (enum_name_messagetype 3 ≢ none)
enum_name_in_table_example = enum_name_in_table 3
