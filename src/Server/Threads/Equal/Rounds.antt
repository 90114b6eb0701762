-- ===== src/Server/Threads/Equal/Rounds.antt =====
-- A whole round of Session.cpp as a program of accesses, with the hub as its callback.
use ranking_server.Base.{
  ℕ, ◌≡◌, refl, sym, inl, inr, List, Option, none, some, ◌>>=◌, Bool, true, false, ◌==◌, ◌%◌, ◌^◌,
  if◌then◌else◌, length, u32, get_elem?, Option-cases, Bool-cases,
}
use ranking_server.Outside.Flat.{FlatBuffers}
use ranking_server.Outside.Json.{JsonLibrary}
use ranking_server.Outside.Redis.{Redis}
use ranking_server.Packet.{
  CustomOverlapped, OperationType, op_default, op_accept, op_recv, op_send, read_header,
}
use ranking_server.Network.State.{Network, Client, Answer, find}
use ranking_server.Network.Client.{receive_ready}
use ranking_server.Network.Manager.{send_to}
use ranking_server.Network.Session.{Completion, deliver, rearm, handle, round, dequeue, arrived}
use ranking_server.Server.Threads.{Program, stop, find_client, run}
use ranking_server.Server.Threads.Rounds.{
  deliver_program, rearm_program, handle_program, round_program, send_buffer_program,
  save_score_program, player_ranking_program, hub_read_program,
}
use ranking_server.Data.{score_to_json, read_ranking}
use ranking_server.Database.{get_cached_data, ranking_table}
use ranking_server.Protocol.RequestSaveScore
use ranking_server.Protocol.RequestPlayerRanking
use ranking_server.Hub.{
  korea_time, send_buffer, response_save_score, response_player_ranking, hub_send, hub_read,
  message_read,
}
use ranking_server.Server.Threads.Equal.{
  run-or_fault, run-receive_program, run-send_to_program, run-give_back_program,
}

-- The callback as a program is the callback.
abbrev pub Mirrors :
    {W : Type 0}
    → (ℕ → ℕ → ℕ → List ℕ → Program W → Program W)
    → (ℕ → ℕ → ℕ → List ℕ → Network × W → Option (Network × W))
    → Type 0
Mirrors {W} program callback =
    (socket size type : ℕ) (body : List ℕ) (k : Program W) (s : Network × W)
    → run (program socket size type body k) s ≡ (callback socket size type body s >>= run k)

module _ {W : Type 0} (ntohl : ℕ → ℕ) (program : ℕ → ℕ → ℕ → List ℕ → Program W → Program W)
    (callback : ℕ → ℕ → ℕ → List ℕ → Network × W → Option (Network × W))
    (mirrors : Mirrors program callback) where
  run-deliver_program :
      (c : Completion) (o : CustomOverlapped) (k : Program W) (s : Network × W)
      → run (deliver_program ntohl program c o k) s ≡ (deliver ntohl callback c o s >>= run k)
  unfolding deliver
  run-deliver_program c o k s = elim (Bool-cases (c.bytes_transferred == 0)) [
    | inl closed ↦ rw closed refl
    | inr alive ↦ elim (Option-cases (read_header o.header.buf)) [
      | inl e ↦ rw (alive, run-or_fault, e) refl
      | inr (h, e) ↦ rw (alive, run-or_fault, e) (mirrors _ _ _ _ k s)
    ]
  ]

  run-rearm_program :
      (c : Completion) (client : Client) (s : Network × W)
      → run (rearm_program ntohl program c client) s ≡ rearm ntohl callback c client s
  unfolding rearm run
  run-rearm_program c client (n, w) =
      elim (Option-cases (receive_ready client c.socket_error c.answer n)) [
        | inl e ↦ rw (run-receive_program, e) refl
        | inr (r, e) ↦ rw (run-receive_program, e) (run-give_back_program c.pointer stop r.1 w)
      ]

  run-accepted :
      (c : Completion) (id : ℕ) (s : Network × W)
      → run
          (find_client id λ found. elim found [
            | none ↦ stop
            | some client ↦ rearm_program ntohl program c client
          ])
          s
        ≡ (elim (find id s.0.client_map) [
          | none ↦ some s
          | some client ↦ rearm ntohl callback c client s
        ])
  unfolding run
  run-accepted c id s = elim (Option-cases (find id s.0.client_map)) [
    | inl e ↦ rw (run, e) refl
    | inr (client, e) ↦ rw (run, e) (run-rearm_program c client s)
  ]

  run-handle_program :
      (c : Completion) (o : CustomOverlapped) (t : OperationType) (s : Network × W)
      → run (handle_program ntohl program c o t) s ≡ handle ntohl callback c o t s
  unfolding run handle
  run-handle_program c o op_accept s = elim (Option-cases (read_header o.header.buf)) [
    | inl e ↦ rw (handle, e) refl
    | inr (h, e) ↦ rw (handle, e) (run-accepted c (u32 h.socket_id) s)
  ]
  run-handle_program c o op_recv s = elim (Option-cases (find (u32 c.key) s.0.client_map)) [
    | inl e ↦ rw (handle, run, e) refl
    | inr (client, e) ↦ elim (Option-cases (deliver ntohl callback c o s)) [
      | inl e' ↦ rw (handle, run, e, run-deliver_program, e') refl
      | inr (s', e') ↦ rw (handle, run, e, run-deliver_program, e') (run-rearm_program c client s')
    ]
  ]
  run-handle_program c o op_send s = run-give_back_program c.pointer stop s.0 s.1
  run-handle_program c o op_default s = run-give_back_program c.pointer stop s.0 s.1

  if-run :
      (b : Bool) (x : Option (Network × W)) (p : Program W) (s : Network × W)
      → x ≡ run p s
      → (if b then x else some s) ≡ run (if b then p else stop) s
  unfolding run
  if-run true x p s e = e
  if-run false x p s e = refl

  -- The program of a round, run with no other thread in between, is the round.
  pub run-round_program :
      (c : Completion) (s : Network × W)
      → round ntohl callback c s ≡ (
          get_elem? s.0.overlapped c.pointer >>= λ o.
          run
            (round_program ntohl program c (arrived c.received o))
            (dequeue c (arrived c.received o) s.0, s.1))
  unfolding round round_program run
  run-round_program c s = elim (Option-cases (get_elem? s.0.overlapped c.pointer)) [
    | inl e ↦ rw e refl
    | inr (o, e) ↦ rw e (if-run c.succeeded _ _ _ (sym (run-handle_program c _ _ _)))
  ]

module _ (fb : FlatBuffers) (js : JsonLibrary) (rd : Redis) (htonl : ℕ → ℕ) (a : Answer) where
  run-send_buffer_program :
      (id contents_type : ℕ) (buffer : List ℕ) (k : Program rd.Store) (s : Network × rd.Store)
      → run (send_buffer_program fb js rd htonl a id contents_type buffer k) s
        ≡ (send_buffer fb js rd htonl a id contents_type buffer s >>= run k)
  unfolding send_buffer
  run-send_buffer_program id contents_type buffer k (n, w) =
      elim (Option-cases (send_to htonl id contents_type buffer (length buffer) a n)) [
        | inl e ↦ rw (run-send_to_program, e) refl
        | inr (r, e) ↦ rw (run-send_to_program, e) refl
      ]

  run-save_score_program :
      (socket : ℕ) (id : List ℕ) (score date : ℕ) (k : Program rd.Store) (s : Network × rd.Store)
      → run (save_score_program fb js rd htonl a socket id score date k) s
        ≡ (response_save_score fb js rd htonl a socket id score date s >>= run k)
  unfolding run response_save_score
  run-save_score_program socket id score date k s =
      elim (Option-cases (js.dump (score_to_json js id score date))) [
        | inl e ↦ rw e refl
        | inr (json, e) ↦ rw e (run-send_buffer_program socket _ _ k _)
      ]

  run-player_ranking_program :
      (socket : ℕ) (id : List ℕ) (k : Program rd.Store) (s : Network × rd.Store)
      → run (player_ranking_program fb js rd htonl a socket id k) s
        ≡ (response_player_ranking fb js rd htonl a socket id s >>= run k)
  unfolding run response_player_ranking
  run-player_ranking_program socket id k s =
      elim (Option-cases (get_cached_data js rd ranking_table id s.1)) [
        | inl e ↦ rw (run, e) refl
        | inr (json, e) ↦ elim (Bool-cases (js.is_blank json)) [
          | inl blank ↦ rw (run, e, blank) (run-send_buffer_program socket _ _ k s)
          | inr known ↦ elim (Option-cases (read_ranking js json)) [
            | inl e' ↦ rw (run, e, known, e') refl
            | inr (r, e') ↦ rw (run, e, known, e') (run-send_buffer_program socket _ _ k s)
          ]
        ]
      ]

  pub hub_read_program-Mirrors :
      Mirrors (hub_read_program fb js rd htonl a) (hub_read fb js rd htonl a)
  unfolding run hub_read_program hub_read message_read hub_send
  hub_read_program-Mirrors socket size type body k s = elim (Bool-cases (type % 2 ^ 8 == 3)) [
    | inl ranking ↦ elim (Option-cases (RequestPlayerRanking.player_id fb (fb.root body))) [
      | inl e ↦ rw (ranking, e) refl
      | inr (id, e) ↦ rw (ranking, e) (run-player_ranking_program socket id k s)
    ]
    | inr other ↦ elim (Bool-cases (type % 2 ^ 8 == 1)) [
      | inl saving ↦ elim (Option-cases (RequestSaveScore.player_id fb (fb.root body))) [
        | inl e ↦ rw (other, saving, e) refl
        | inr (id, e) ↦
            elim (Option-cases (korea_time (RequestSaveScore.last_update fb (fb.root body)))) [
              | inl late ↦ rw (other, saving, e, late) refl
              | inr (date, moved) ↦
                  rw (other, saving, e, moved) (run-save_score_program socket id _ date k s)
            ]
      ]
      | inr unknown ↦ rw (other, unknown) refl
    ]
  ]

  -- A session round with the hub as its callback, done as one step, faults or leaves the network and
  -- the cache exactly as its program of accesses does that runs to its end with no other thread in
  -- between.
  pub round-interleaved :
      (ntohl : ℕ → ℕ) (c : Completion) (s : Network × rd.Store)
      → round ntohl (hub_read fb js rd htonl a) c s ≡ (
          get_elem? s.0.overlapped c.pointer >>= λ o.
          run
            (round_program ntohl (hub_read_program fb js rd htonl a) c (arrived c.received o))
            (dequeue c (arrived c.received o) s.0, s.1))
  round-interleaved ntohl c s =
      run-round_program ntohl (hub_read_program fb js rd htonl a) (hub_read fb js rd htonl a)
        hub_read_program-Mirrors c s
