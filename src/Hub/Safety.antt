-- ===== src/Hub/Safety.antt =====
-- The callback of Hub.cpp in the session loop, and the ownership of the overlapped structures.
use ranking_server.Base.{
  ℕ, ◌%◌, ◌^◌, List, ◌==◌, Option-cases, inl, inr, After, After->>=, After-then, After-if, length,
}
use ranking_server.Outside.Flat.{FlatBuffers}
use ranking_server.Outside.Json.{JsonLibrary}
use ranking_server.Outside.Redis.{Redis}
use ranking_server.Data.{score_to_json, read_ranking}
use ranking_server.Database.{set_cached_data, get_cached_data, score_table, ranking_table}
use ranking_server.Protocol.RequestSaveScore
use ranking_server.Protocol.RequestPlayerRanking
use ranking_server.Ring.Bounds.{IsValid}
use ranking_server.Network.State.{Network, Answer, find}
use ranking_server.Network.Manager.{send_to}
use ranking_server.Network.Ownership.{Keeps, Keeps-refl}
use ranking_server.Network.Calls.{send-Keeps}
use ranking_server.Network.Session.{Completion, process}
use ranking_server.Network.Rounds.{IsCareful, EachInFlight, process-Keeps}
use ranking_server.Hub.{
  korea_time, send_buffer, response_save_score, response_player_ranking, hub_send, hub_read,
  message_read,
}

-- `NetworkManager::Send` keeps the ownership.
pub send_to-Keeps :
    (htonl : ℕ → ℕ) (id contents_type : ℕ) (body : List ℕ) (size : ℕ) (a : Answer) (n : Network)
    → IsValid n.overlapped_queue
    → After (λ r. Keeps n r.1) (send_to htonl id contents_type body size a n)
unfolding send_to
send_to-Keeps htonl id contents_type body size a n v = elim (Option-cases (find id n.client_map)) [
  | inl e ↦ rw (e, send_to) (Keeps-refl n v)
  | inr (client, e) ↦ rw (e, send_to) (send-Keeps n v client _ body size a)
]

module _ (fb : FlatBuffers) (js : JsonLibrary) (rd : Redis) (htonl : ℕ → ℕ) (a : Answer) where
  abbrev Kept : Network → Network × rd.Store → Type 0
  Kept n s = Keeps n s.0

  send_buffer-Keeps :
      (id contents_type : ℕ) (buffer : List ℕ) (s : Network × rd.Store)
      → IsValid s.0.overlapped_queue
      → After (Kept s.0) (send_buffer fb js rd htonl a id contents_type buffer s)
  unfolding send_buffer
  send_buffer-Keeps id contents_type buffer s v =
      After->>= (λ r. Keeps s.0 r.1) _ (send_to htonl id contents_type buffer (length buffer) a s.0)
        _ (send_to-Keeps htonl id contents_type buffer (length buffer) a s.0 v) λ r k. k

  response_save_score-Keeps :
      (socket : ℕ) (id : List ℕ) (score date : ℕ) (s : Network × rd.Store)
      → IsValid s.0.overlapped_queue
      → After (Kept s.0) (response_save_score fb js rd htonl a socket id score date s)
  unfolding response_save_score
  response_save_score-Keeps socket id score date s v =
      After-then _ (js.dump (score_to_json js id score date)) _ λ json.
        send_buffer-Keeps socket _ _ (s.0, set_cached_data js rd score_table id json _ s.1) v

  response_player_ranking-Keeps :
      (socket : ℕ) (id : List ℕ) (s : Network × rd.Store)
      → IsValid s.0.overlapped_queue
      → After (Kept s.0) (response_player_ranking fb js rd htonl a socket id s)
  unfolding response_player_ranking
  response_player_ranking-Keeps socket id s v =
      After-then _ (get_cached_data js rd ranking_table id s.1) _ λ json.
        After-if _ (js.is_blank json) _ _ (send_buffer-Keeps socket _ _ s v)
          (After-then _ (read_ranking js json) _ λ r. send_buffer-Keeps socket _ _ s v)

  pub hub_read-IsCareful : IsCareful (hub_read fb js rd htonl a)
  unfolding hub_read message_read hub_send
  hub_read-IsCareful socket size type body s v =
      After-if _ (type % 2 ^ 8 == 3) _ _
        (After-then _ (RequestPlayerRanking.player_id fb (fb.root body)) _
          λ id. response_player_ranking-Keeps socket id s v)
        (After-if _ (type % 2 ^ 8 == 1) _ _
          (After-then _ (RequestSaveScore.player_id fb (fb.root body)) _ λ id.
            After-then _ (korea_time (RequestSaveScore.last_update fb (fb.root body))) _
              λ date. response_save_score-Keeps socket id _ date s v)
          (Keeps-refl s.0 v))

  -- The session loop with Hub::Read as its callback, from a state with a well-formed queue and over
  -- completions each of a structure then in flight, leaves, where it does not fault, no overlapped
  -- structure with more owners (places in the free queue, or in flight) than it had; the queue stays
  -- well formed and the client map as it was.
  pub process-hub_read-Keeps :
      (ntohl : ℕ → ℕ) (cs : List Completion) (s : Network × rd.Store)
      → IsValid s.0.overlapped_queue
      → EachInFlight ntohl (hub_read fb js rd htonl a) cs s
      → After (Kept s.0) (process ntohl (hub_read fb js rd htonl a) cs s)
  process-hub_read-Keeps ntohl cs s v h =
      process-Keeps ntohl (hub_read fb js rd htonl a) hub_read-IsCareful cs s v h
