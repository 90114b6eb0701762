-- ===== src/Protocol/RequestPlayerRanking.antt =====
-- Table REQUEST_PLAYER_RANKING of
-- RankingServer/include/RANKING_PROTOCOL_generated.h.
use ranking_server.Base.{ℕ, List, [], ◌∷◌, Option, none, some}
use ranking_server.Outside.Flat.{Slot, offset, FlatBuffers}

abbrev pub vt_player_id : ℕ
vt_player_id = 4

-- CreateREQUEST_PLAYER_RANKING
abbrev pub create : List ℕ → List Slot
create player_id = offset vt_player_id player_id ∷ []

-- CreateREQUEST_PLAYER_RANKINGDirect: a null string is not added.
abbrev pub create_direct : Option (List ℕ) → List Slot
create_direct none = []
create_direct (some player_id) = create player_id

module _ (fb : FlatBuffers) where
  abbrev pub player_id : fb.Table → Option (List ℕ)
  player_id t = fb.get_string t vt_player_id
