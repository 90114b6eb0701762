-- ===== src/Hub/Settled.antt =====
-- Every request to save a score that arrives: Session.cpp and Hub.cpp together.
use ranking_server.Base.{
  ◌+◌, ◌*◌, ℕ, ◌%◌, ◌^◌, ◌≡◌, ◌≤◌, ◌<◌, ◌⊎◌, inl, inr, refl, List, ◌++◌, none, some, true, length,
  arith, dec_lt, Option-cases, u32,
}
use ranking_server.Outside.Flat.{FlatBuffers}
use ranking_server.Outside.Json.{JsonLibrary}
use ranking_server.Outside.Redis.{Redis}
use ranking_server.Packet.{CustomOverlapped, MessageHeader, buffer_size}
use ranking_server.Data.{score_to_json}
use ranking_server.Database.{set_cached_data, score_table}
use ranking_server.Protocol.RequestSaveScore
use ranking_server.Protocol.ResponseSaveScore
use ranking_server.Network.State.{Network, Client, Answer}
use ranking_server.Network.Session.{Completion, round}
use ranking_server.Network.Supply.{IsStocked}
use ranking_server.Network.Accepts.{free}
use ranking_server.Network.Arrival.{Arrives}
use ranking_server.Hub.{hub_read, nine_hours_later, IsInRange}
use ranking_server.Hub.Answered.{Answered, answer_header}
use ranking_server.Hub.Served.{serve_save_score}
use ranking_server.Hub.Faults.{late, undumpable, long_confirmation, serve-Harmful}

-- A request's values are in range, unless the time is too close to the largest.
range_cases :
    (score time : ℕ)
    → score < 2 ^ 32
    → time < 2 ^ 64
    → ((time < 2 ^ 63) × (2 ^ 63 ≤ time + 9 * 3600)) ⊎ IsInRange score time
range_cases score time int32 int64 = elim (dec_lt time (2 ^ 63)) [
  | yes positive ↦ elim (dec_lt (time + 9 * 3600) (2 ^ 63)) [
    | yes fine ↦ inr (int32, int64, inl fine)
    | no over ↦ inl (positive, omega arith)
  ]
  | no negative ↦ inr (int32, int64, inr (omega arith))
]

module _ (fb : FlatBuffers) (js : JsonLibrary) (rd : Redis) (htonl ntohl : ℕ → ℕ) (a : Answer) where
  -- Every request to save a score that arrives on a stocked network with two structures left, with a
  -- contents type whose low byte in host order is 1 and with values of the fields' types, is
  -- settled: the session round with the hub as its callback is undefined behaviour or ends in an
  -- exception that nothing catches, and then the time with nine hours more overflows, the score
  -- cannot be dumped as JSON or the confirmation is longer than BUFFER_SIZE bytes; or it returns,
  -- the cache has been sent the score, with the time moved by nine hours, for 60 seconds, and the
  -- request is answered: unless WSASend fails, header and confirmation are on the wire of the
  -- client's socket, and the network is stocked with one structure less in its queue.
  pub save_score_settled :
      {c : Completion} {o : CustomOverlapped} {client : Client} {socket : ℕ} {h : MessageHeader}
      (s : Network × rd.Store) (id : List ℕ) (score time : ℕ)
      → IsStocked s.0
      → 2 ≤ free s.0
      → Arrives s.0 c o client socket h (fb.finish (RequestSaveScore.create id score time))
      → ntohl h.contents_type % 2 ^ 8 ≡ 1
      → score < 2 ^ 32
      → time < 2 ^ 64
      → let answer = fb.finish (ResponseSaveScore.create id true) in
        ((((time < 2 ^ 63) × (2 ^ 63 ≤ time + 9 * 3600))
            ⊎ (js.dump (score_to_json js id score (nine_hours_later time)) ≡ none)
            ⊎ (buffer_size < length answer))
          × (round ntohl (hub_read fb js rd htonl a) c s ≡ none))
        ⊎ ((json : List ℕ) × (n' : Network) × (js.dump
                (score_to_json js id score (nine_hours_later time))
              ≡ some json)
            × (round ntohl (hub_read fb js rd htonl a) c s
                ≡ some (n', set_cached_data js rd score_table id json 60 s.1))
            × Answered s.0 n' c.pointer socket
                (answer_header htonl (u32 c.key) 2 answer ++ answer)
                a
                c.answer)
  save_score_settled s id score time stocked left r type int32 int64 =
      let ss = RequestSaveScore.create id score time in
      let answer = fb.finish (ResponseSaveScore.create id true) in
      let harm = serve-Harmful fb js rd htonl a ntohl s ss stocked r (omega arith) in
      elim (range_cases score time int32 int64) [
        | inl over ↦ inl (inl over, harm (late id score time type int32 int64 refl over.0 over.1))
        | inr fits ↦
            elim (Option-cases (js.dump (score_to_json js id score (nine_hours_later time)))) [
              | inl bad ↦ inl (inr (inl bad), harm (undumpable id score time type fits refl bad))
              | inr (json, dumped) ↦ elim (dec_lt buffer_size (length answer)) [
                | yes long ↦
                    inl (inr (inr long), harm (long_confirmation id score time type fits refl long))
                | no short ↦
                    let (n', done, answered) =
                      serve_save_score fb js rd htonl ntohl a s stocked left id score time json r
                        type fits dumped (omega arith) in
                    inr (json, n', dumped, done, answered)
              ]
            ]
      ]
