-- ===== src/Protocol/ResponsePlayerRanking.antt =====
-- Table RESPONSE_PLAYER_RANKING of
-- RankingServer/include/RANKING_PROTOCOL_generated.h.
use ranking_server.Base.{ℕ, List, [], ◌∷◌, Option, none, some, Bool, not, ◌==◌}
use ranking_server.Outside.Flat.{Slot, element, offset, FlatBuffers}
use ranking_server.Protocol.Names.{bool_byte}

abbrev pub vt_player_id : ℕ
vt_player_id = 4

abbrev pub vt_score : ℕ
vt_score = 6

abbrev pub vt_ranking : ℕ
vt_ranking = 8

abbrev pub vt_in_ranking : ℕ
vt_in_ranking = 10

abbrev pub vt_feedback : ℕ
vt_feedback = 12

-- CreateRESPONSE_PLAYER_RANKING
abbrev pub create : List ℕ → ℕ → ℕ → Bool → Bool → List Slot
create player_id score ranking in_ranking feedback =
    element 32 vt_ranking ranking 0
    ∷ element 32 vt_score score 0
    ∷ offset vt_player_id player_id
    ∷ element 8 vt_feedback (bool_byte feedback) 0
    ∷ element 8 vt_in_ranking (bool_byte in_ranking) 0
    ∷ []

-- CreateRESPONSE_PLAYER_RANKINGDirect: a null string is not added.
abbrev pub create_direct : Option (List ℕ) → ℕ → ℕ → Bool → Bool → List Slot
create_direct none score ranking in_ranking feedback =
    element 32 vt_ranking ranking 0
    ∷ element 32 vt_score score 0
    ∷ element 8 vt_feedback (bool_byte feedback) 0
    ∷ element 8 vt_in_ranking (bool_byte in_ranking) 0
    ∷ []
create_direct (some player_id) score ranking in_ranking feedback =
    create player_id score ranking in_ranking feedback

module _ (fb : FlatBuffers) where
  abbrev pub player_id : fb.Table → Option (List ℕ)
  player_id t = fb.get_string t vt_player_id

  abbrev pub score : fb.Table → ℕ
  score t = fb.get_field t 32 vt_score 0

  abbrev pub ranking : fb.Table → ℕ
  ranking t = fb.get_field t 32 vt_ranking 0

  abbrev pub in_ranking : fb.Table → Bool
  in_ranking t = not (fb.get_field t 8 vt_in_ranking 0 == 0)

  abbrev pub feedback : fb.Table → Bool
  feedback t = not (fb.get_field t 8 vt_feedback 0 == 0)
