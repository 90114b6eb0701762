-- ===== src/Data.antt =====
-- RankingServer/include/DataStructure.h. An `int` is its 32-bit pattern, `mLastUpdate` and a `time_t`
-- their 64-bit one.
use ranking_server.Base.{ℕ, ◌≡◌, List, [], ◌∷◌, Option, none, some, ◌>>=◌}
use ranking_server.Outside.Json.{JsonLibrary, Value, str, int}

pub record DataScore : Type 0 where
  pub player_id : List ℕ
  pub score : ℕ
  pub last_update : ℕ

pub record DataRanking : Type 0 where
  pub rank : ℕ
  pub player_id : List ℕ
  pub score : ℕ

-- The conversions of a member to a string and to a number; another type throws.
abbrev pub as_text : Value → Option (List ℕ)
as_text (str t) = some t
as_text (int n) = none

abbrev pub as_int : Value → Option ℕ
as_int (str t) = none
as_int (int n) = some n

module _ (js : JsonLibrary) where
  -- The two `toJson`.
  unfoldable pub score_to_json : List ℕ → ℕ → ℕ → js.Json
  score_to_json id score last_update =
      js.object
        (("player_id", str id) ∷ ("score", int score) ∷ ("last_update", int last_update) ∷ [])

  unfoldable pub ranking_to_json : ℕ → List ℕ → ℕ → js.Json
  ranking_to_json rank id score =
      js.object (("rank", int rank) ∷ ("player_id", str id) ∷ ("score", int score) ∷ [])

  -- The two constructors.
  unfoldable pub read_score : js.Json → Option DataScore
  read_score j = do
    id ← js.field j "player_id" >>= as_text
    score ← js.field j "score" >>= as_int
    last_update ← js.field j "last_update" >>= as_int
    some (record { player_id = id; score = score; last_update = last_update })

  unfoldable pub read_ranking : js.Json → Option DataRanking
  read_ranking j = do
    rank ← js.field j "rank" >>= as_int
    id ← js.field j "player_id" >>= as_text
    score ← js.field j "score" >>= as_int
    some (record { rank = rank; player_id = id; score = score })

  -- Data_Score read from the JSON that toJson has made has the three values it was made of.
  pub read_score-score_to_json :
      (id : List ℕ) (score last_update : ℕ)
      → read_score (score_to_json id score last_update)
        ≡ some (record { player_id = id; score = score; last_update = last_update })
  unfolding read_score score_to_json
  read_score-score_to_json id score last_update = simp js.field-object

  pub read_ranking-ranking_to_json :
      (rank : ℕ) (id : List ℕ) (score : ℕ)
      → read_ranking (ranking_to_json rank id score)
        ≡ some (record { rank = rank; player_id = id; score = score })
  unfolding read_ranking ranking_to_json
  read_ranking-ranking_to_json rank id score = simp js.field-object
