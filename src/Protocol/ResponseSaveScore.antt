-- ===== src/Protocol/ResponseSaveScore.antt =====
-- Table RESPONSE_SAVE_SCORE of
-- RankingServer/include/RANKING_PROTOCOL_generated.h.
use ranking_server.Base.{ℕ, List, [], ◌∷◌, Option, none, some, Bool, not, ◌==◌}
use ranking_server.Outside.Flat.{Slot, element, offset, FlatBuffers}
use ranking_server.Protocol.Names.{bool_byte}

abbrev pub vt_player_id : ℕ
vt_player_id = 4

abbrev pub vt_feedback : ℕ
vt_feedback = 6

-- CreateRESPONSE_SAVE_SCORE
abbrev pub create : List ℕ → Bool → List Slot
create player_id feedback =
    offset vt_player_id player_id ∷ element 8 vt_feedback (bool_byte feedback) 0 ∷ []

-- CreateRESPONSE_SAVE_SCOREDirect: a null string is not added.
abbrev pub create_direct : Option (List ℕ) → Bool → List Slot
create_direct none feedback = element 8 vt_feedback (bool_byte feedback) 0 ∷ []
create_direct (some player_id) feedback = create player_id feedback

module _ (fb : FlatBuffers) where
  abbrev pub player_id : fb.Table → Option (List ℕ)
  player_id t = fb.get_string t vt_player_id

  abbrev pub feedback : fb.Table → Bool
  feedback t = not (fb.get_field t 8 vt_feedback 0 == 0)
