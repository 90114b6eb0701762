-- ===== src/Protocol/RequestSaveScore.antt =====
-- Table REQUEST_SAVE_SCORE of
-- RankingServer/include/RANKING_PROTOCOL_generated.h.
use ranking_server.Base.{ℕ, List, [], ◌∷◌, Option, none, some}
use ranking_server.Outside.Flat.{Slot, element, offset, FlatBuffers}

abbrev pub vt_player_id : ℕ
vt_player_id = 4

abbrev pub vt_score : ℕ
vt_score = 6

abbrev pub vt_last_update : ℕ
vt_last_update = 8

-- CreateREQUEST_SAVE_SCORE
abbrev pub create : List ℕ → ℕ → ℕ → List Slot
create player_id score last_update =
    element 64 vt_last_update last_update 0
    ∷ element 32 vt_score score 0
    ∷ offset vt_player_id player_id
    ∷ []

-- CreateREQUEST_SAVE_SCOREDirect: a null string is not added.
abbrev pub create_direct : Option (List ℕ) → ℕ → ℕ → List Slot
create_direct none score last_update =
    element 64 vt_last_update last_update 0 ∷ element 32 vt_score score 0 ∷ []
create_direct (some player_id) score last_update = create player_id score last_update

module _ (fb : FlatBuffers) where
  abbrev pub player_id : fb.Table → Option (List ℕ)
  player_id t = fb.get_string t vt_player_id

  abbrev pub score : fb.Table → ℕ
  score t = fb.get_field t 32 vt_score 0

  abbrev pub last_update : fb.Table → ℕ
  last_update t = fb.get_field t 64 vt_last_update 0
