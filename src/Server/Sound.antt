-- ===== src/Server/Sound.antt =====
-- The invariant of the whole server, by induction on its steps.
use ranking_server.Base.{
  ◌≤◌, ℕ, ◌%◌, ◌^◌, ◌≡◌, refl, ◌∙◌, subst, List, some, ◌==◌, length, After, After-then, After-if,
  After->>=,
}
use ranking_server.Outside.Flat.{FlatBuffers}
use ranking_server.Outside.Json.{JsonLibrary}
use ranking_server.Outside.Redis.{Redis}
use ranking_server.Outside.Odbc.{Odbc}
use ranking_server.Outside.Calendar.{Calendar}
use ranking_server.Converter.{Codepages}
use ranking_server.Packet.{header_size, buffer_size}
use ranking_server.Data.{score_to_json, read_ranking}
use ranking_server.Database.{
  set_cached_data, get_cached_data, score_table, ranking_table, data_load_in_sql,
}
use ranking_server.Protocol.RequestSaveScore
use ranking_server.Protocol.RequestPlayerRanking
use ranking_server.Network.State.{Network, Answer}
use ranking_server.Network.Manager.{
  Platform, AcceptAnswer, initialize_manager, ready_manager, send_to,
}
use ranking_server.Network.Session.{Completion, round}
use ranking_server.Network.Supply.{IsStocked}
use ranking_server.Network.Steady.{Steady, Steady-refl, send_to-Steady}
use ranking_server.Network.Steady.Rounds.{IsSteady, round-Steady}
use ranking_server.Network.Rounds.{round-Keeps}
use ranking_server.Hub.{
  korea_time, send_buffer, response_save_score, response_player_ranking, hub_send, hub_read,
  message_read, hub_initialize, socket_max,
}
use ranking_server.Network.Ownership.{Keeps, count}
use ranking_server.Hub.Safety.{hub_read-IsCareful}
use ranking_server.Server.{Server, Step, Reach, main_start}
use ranking_server.Server.Starts.{IsSound, IsSound-step, ready_manager-IsSound}

module _ (fb : FlatBuffers) (js : JsonLibrary) (rd : Redis) (htonl : ℕ → ℕ) (a : Answer) where
  send_buffer-Steady :
      (id contents_type : ℕ) (buffer : List ℕ) (s : Network × rd.Store)
      → IsStocked s.0
      → After (λ s'. Steady s.0 s'.0) (send_buffer fb js rd htonl a id contents_type buffer s)
  unfolding send_buffer
  send_buffer-Steady id contents_type buffer s k =
      After->>= (λ r. Steady s.0 r.1) _
        (send_to htonl id contents_type buffer (length buffer) a s.0) _
        (send_to-Steady s.0 k htonl id contents_type buffer (length buffer) a) λ r j. j

  response_save_score-Steady :
      (socket : ℕ) (id : List ℕ) (score date : ℕ) (s : Network × rd.Store)
      → IsStocked s.0
      → After (λ s'. Steady s.0 s'.0) (response_save_score fb js rd htonl a socket id score date s)
  unfolding response_save_score
  response_save_score-Steady socket id score date s k =
      After-then _ (js.dump (score_to_json js id score date)) _ λ json.
        send_buffer-Steady socket _ _ (s.0, set_cached_data js rd score_table id json _ s.1) k

  response_player_ranking-Steady :
      (socket : ℕ) (id : List ℕ) (s : Network × rd.Store)
      → IsStocked s.0
      → After (λ s'. Steady s.0 s'.0) (response_player_ranking fb js rd htonl a socket id s)
  unfolding response_player_ranking
  response_player_ranking-Steady socket id s k =
      After-then _ (get_cached_data js rd ranking_table id s.1) _ λ json.
        After-if _ (js.is_blank json) _ _ (send_buffer-Steady socket _ _ s k)
          (After-then _ (read_ranking js json) _ λ r. send_buffer-Steady socket _ _ s k)

  pub hub_read-IsSteady : IsSteady (hub_read fb js rd htonl a)
  unfolding hub_read message_read hub_send
  hub_read-IsSteady socket size type body s k =
      After-if _ (type % 2 ^ 8 == 3) _ _
        (After-then _ (RequestPlayerRanking.player_id fb (fb.root body)) _
          λ id. response_player_ranking-Steady socket id s k)
        (After-if _ (type % 2 ^ 8 == 1) _ _
          (After-then _ (RequestSaveScore.player_id fb (fb.root body)) _ λ id.
            After-then _ (korea_time (RequestSaveScore.last_update fb (fb.root body))) _
              λ date. response_save_score-Steady socket id _ date s k)
          (Steady-refl s.0 k))

-- A round over a structure in flight, with the hub as its callback, keeps a network sound.
pub round-IsSound :
    (fb : FlatBuffers) (js : JsonLibrary) (rd : Redis) (htonl ntohl : ℕ → ℕ) (a : Answer)
    (c : Completion) (s s' : Network × rd.Store)
    → 1 ≤ count c.pointer s.0.in_flight
    → round ntohl (hub_read fb js rd htonl a) c s ≡ some s'
    → IsSound s.0
    → IsSound s'.0 × (s'.0.client_map ≡ s.0.client_map)
round-IsSound fb js rd htonl ntohl a c s s' flying done k =
    let kept = subst (After (λ t. Keeps s.0 t.0)) done (
      round-Keeps ntohl (hub_read fb js rd htonl a) (hub_read-IsCareful fb js rd htonl a) c s
        k.stocked.queue flying) in
    let steady = subst (After (λ t. Steady s.0 t.0)) done (
      round-Steady ntohl (hub_read fb js rd htonl a) (hub_read-IsSteady fb js rd htonl a) c s
        k.stocked) in
    (IsSound-step k kept steady.stocked, kept.clients)

module _ (fb : FlatBuffers) (js : JsonLibrary) (rd : Redis) (cp : Codepages) (cal : Calendar)
    (od : Odbc) (htonl ntohl : ℕ → ℕ) where
  Step-IsSound :
      {s u : Server rd od}
      → Step fb js rd cp cal od htonl ntohl s u
      → IsSound s.network
      → IsSound u.network × (u.network.client_map ≡ s.network.client_map)
  Step-IsSound {s} (Step.completed c a s' flying done e) k =
      rw e (round-IsSound fb js rd htonl ntohl a c (s.network, s.cache) s' flying done k)
  Step-IsSound (Step.saves fuel db' asleep long done e) k = rw e (k, refl)
  Step-IsSound (Step.updates after e) k = rw e (k, refl)
  Step-IsSound (Step.loads cache' after done e) k = rw e (k, refl)
  Step-IsSound (Step.waited t e) k = rw e (k, refl)

  -- From a sound state every run leads to sound states, with the client map as it was.
  pub Reach-IsSound :
      {s u : Server rd od}
      → IsSound s.network
      → Reach fb js rd cp cal od htonl ntohl s u
      → IsSound u.network × (u.network.client_map ≡ s.network.client_map)
  Reach-IsSound k Reach.here = (k, refl)
  Reach-IsSound k (Reach.next r st) =
      let (k', m) = Reach-IsSound k r in let (k'', m') = Step-IsSound st k' in (k'', m' ∙ m)

  main_start-IsSound :
      (p : Platform) (answers : ℕ → AcceptAnswer) (db : od.Db) (cache : rd.Store) (s : Server rd od)
      → ((i : ℕ) → (length (p.cells i).0 ≡ header_size) × (length (p.cells i).1 ≡ buffer_size))
      → main_start fb js rd cp cal od htonl ntohl p answers db cache ≡ some s
      → IsSound s.network
  unfolding main_start hub_initialize
  main_start-IsSound p answers db cache s sized e =
      subst (After (λ (t : Server rd od). IsSound t.network)) e (
        After->>= (λ t. IsSound t.0) _
          (hub_initialize js rd cp cal od p socket_max answers db cache) _
          (After-then _ (data_load_in_sql js rd cp cal od db cache) _ λ s'.
            After->>= (λ r. IsSound r.0) _
              (ready_manager p answers (initialize_manager p socket_max)) _
              (ready_manager-IsSound p socket_max answers sized) λ r k. k)
          λ t k. k)

  -- In every state that the server reaches from its start in main, by rounds of session threads over
  -- completions of structures in flight, the calls that Hub::Work makes after a sleep of a minute at
  -- least and the passing of time, in any order and none with a fault, and where new gives arrays of
  -- the sizes asked for, the network is sound: it is stocked, and no overlapped structure is twice
  -- in the queue, twice in flight or in both. The client map is that of the start.
  pub server_IsSound :
      (p : Platform) (answers : ℕ → AcceptAnswer) (db : od.Db) (cache : rd.Store)
      (s u : Server rd od)
      → ((i : ℕ) → (length (p.cells i).0 ≡ header_size) × (length (p.cells i).1 ≡ buffer_size))
      → main_start fb js rd cp cal od htonl ntohl p answers db cache ≡ some s
      → Reach fb js rd cp cal od htonl ntohl s u
      → IsSound u.network × (u.network.client_map ≡ s.network.client_map)
  server_IsSound p answers db cache s u sized e r =
      Reach-IsSound (main_start-IsSound p answers db cache s sized e) r
