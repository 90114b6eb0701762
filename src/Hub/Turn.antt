-- ===== src/Hub/Turn.antt =====
-- A client whose request is answered and who is listened to again: the session rounds of both.
use ranking_server.Base.{
  ℕ, ◌+◌, ◌%◌, ◌^◌, ◌≡◌, ◌≢◌, ◌≤◌, ◌<◌, refl, sym, ap, subst, ◌∙◌, List, [], ◌∷◌, ◌++◌, none, some,
  true, false, arith, length, get_elem?, u32, ==_of_ne, ==_iff,
}
use ranking_server.Outside.Flat.{FlatBuffers}
use ranking_server.Outside.Json.{JsonLibrary}
use ranking_server.Outside.Redis.{Redis}
use ranking_server.Ring.{printed}
use ranking_server.Packet.{
  CustomOverlapped, MessageHeader, op_recv, header_bytes, header_size, buffer_size,
}
use ranking_server.Data.{score_to_json}
use ranking_server.Database.{set_cached_data, score_table}
use ranking_server.Protocol.RequestSaveScore
use ranking_server.Protocol.ResponseSaveScore
use ranking_server.Network.State.{Network, Client, Answer, find, invalid_socket}
use ranking_server.Network.Client.{is_failed}
use ranking_server.Network.Session.{Completion, remove_first, round}
use ranking_server.Network.Ownership.{count, count_free}
use ranking_server.Network.Rounds.{count-remove_first}
use ranking_server.Network.Accepts.{free}
use ranking_server.Network.Passed.{free-lt}
use ranking_server.Network.Arrival.{Arrives}
use ranking_server.Hub.{hub_read, nine_hours_later, IsInRange}
use ranking_server.Hub.Served.{serve_save_score}
use ranking_server.Hub.Answered.{answer_header}
use ranking_server.Hub.Exchange.{round_sent_returns, answer_is_sent}
use ranking_server.Server.Starts.{IsSound}
use ranking_server.Server.Sound.{round-IsSound}

-- A request to save a score with its header, and the JSON that is stored for it.
pub record Saving : Type 0 where
  pub header : MessageHeader
  pub id : List ℕ
  pub score : ℕ
  pub time : ℕ
  pub json : List ℕ

-- The structure `p` is receiving on a sound network with two others left.
pub record Listens (n : Network) (p : ℕ) : Type 0 where
  pub sound : IsSound n
  pub room : 2 ≤ free n
  pub flying : 1 ≤ count p n.in_flight
  pub structure : CustomOverlapped
  pub found : get_elem? n.overlapped p ≡ some structure
  pub receiving : structure.operation_type ≡ op_recv

in_flight_pair : (q r : ℕ) (rest l : List ℕ) → l ≡ q ∷ r ∷ rest → (1 ≤ count q l) × (1 ≤ count r l)
in_flight_pair q r rest l e =
    rw (e, (==_iff q q).1 refl, (==_iff r r).1 refl) (omega arith, omega arith)

kept_in_flight :
    (r q : ℕ) (l l' : List ℕ)
    → q ≢ r
    → l' ≡ remove_first r l
    → 1 ≤ count r l
    → 1 ≤ count q l
    → 1 ≤ count q l'
kept_in_flight r q l l' ne e flying h =
    let same = rw (==_of_ne (λ k. ne (sym k))) at (count-remove_first r q l flying) in
    omega (arith, ap (count q) e, same)

module _ (fb : FlatBuffers) (js : JsonLibrary) (rd : Redis) (htonl ntohl : ℕ → ℕ) (a : Answer)
    (key : ℕ) (client : Client) (socket : ℕ) where
  abbrev pub message : Saving → List ℕ
  message m = fb.finish (RequestSaveScore.create m.id m.score m.time)

  abbrev pub confirmation : Saving → List ℕ
  confirmation m = fb.finish (ResponseSaveScore.create m.id true)

  pub record IsFine (m : Saving) : Type 0 where
    pub type : ntohl m.header.contents_type % 2 ^ 8 ≡ 1
    pub range : IsInRange m.score m.time
    pub dumps : js.dump (score_to_json js m.id m.score (nine_hours_later m.time)) ≡ some m.json
    pub fits : length (confirmation m) ≤ buffer_size
    pub short : length (message m) ≤ buffer_size
    pub id_word : m.header.socket_id < 2 ^ 32
    pub size_word : m.header.body_size < 2 ^ 32
    pub type_word : m.header.contents_type < 2 ^ 32

  -- The completion of the receive of a request in structure `p`, and that of the send of its
  -- confirmation, all bytes of it, in `r`.
  abbrev pub incoming : Saving → ℕ → Completion
  incoming m p = record {
    succeeded = true;
    bytes_transferred = header_size + length (message m);
    key = key;
    pointer = p;
    received = header_bytes m.header ++ message m;
    socket_error = 0;
    answer = a;
  }

  abbrev pub sent : Saving → ℕ → Completion
  sent m r = record {
    succeeded = true;
    bytes_transferred = header_size + length (confirmation m);
    key = key;
    pointer = r;
    received = [];
    socket_error = 0;
    answer = a;
  }

  abbrev pub stored : Saving → rd.Store → rd.Store
  stored m s = set_cached_data js rd score_table m.id m.json 60 s

  abbrev pub on_wire : Saving → ℕ × List ℕ
  on_wire m = (socket, answer_header htonl (u32 key) 2 (confirmation m) ++ confirmation m)

  -- The client is known and its socket is open; transfers are accepted.
  pub record IsOpen (n : Network) : Type 0 where
    pub known : find (u32 key) n.client_map ≡ some client
    pub has_socket : client.socket ≡ some socket
    pub opened : socket ≢ invalid_socket
    pub accepted : is_failed a ≡ false

  incoming-Arrives :
      (m : Saving) (n : Network) (p : ℕ)
      → IsFine m
      → IsOpen n
      → (l : Listens n p) → Arrives n (incoming m p) l.structure client socket m.header (message m)
  incoming-Arrives m n p f k l = record {
    found = l.found;
    receiving = l.receiving;
    succeeded = refl;
    not_closed = ==_of_ne (λ e. omega (arith, e));
    no_error = refl;
    known = k.known;
    has_socket = k.has_socket;
    is_open = k.opened;
    bytes = refl;
    short = f.short;
    id_word = f.id_word;
    size_word = f.size_word;
    type_word = f.type_word;
  }

  -- A request and its answer: the client is listened to again.
  pub exchange-Listens :
      (m : Saving) (n : Network) (p : ℕ) (s : rd.Store)
      → IsFine m
      → IsOpen n
      → Listens n p
      → (n₁ n' : Network) × (r q : ℕ) × (round ntohl
            (hub_read fb js rd htonl a)
            (incoming m p)
            (n, s)
          ≡ some (n₁, stored m s))
        × (round ntohl (hub_read fb js rd htonl a) (sent m r) (n₁, stored m s)
            ≡ some (n', stored m s))
        × Listens n' q
        × IsOpen n'
        × (n'.wire ≡ n.wire ++ (on_wire m ∷ []))
        × (free n' ≡ free n)
  exchange-Listens m n p s f k l =
      let (n₁, served, r) =
        serve_save_score fb js rd htonl ntohl a (n, s) l.sound.stocked l.room m.id m.score m.time
          m.json (incoming-Arrives m n p f k l) f.type f.range f.dumps f.fits in
      let (x, found, sends) = answer_is_sent l.sound l.flying r in
      let (n', done, e) =
        round_sent_returns ntohl (hub_read fb js rd htonl a) (sent m r.pointer) x (n₁, stored m s)
          r.stocked refl found sends (omega (arith, r.used, r.cells, free-lt n l.sound.stocked)) in
      let other : r.next ≢ p = λ same. omega (
        arith,
        l.sound.unique p,
        l.flying,
        subst (λ j. 1 ≤ count_free j (printed none n.overlapped_queue)) same r.next_was_free,
      ) in
      let apart = r.apart (omega (arith, l.sound.unique r.pointer)) in
      let (o, here, recv) = r.receiving other in
      let begun₁ : n₁.in_flight ≡ r.next ∷ r.pointer ∷ remove_first p n.in_flight =
        rw k.accepted at r.flying in
      let flies : 1 ≤ count r.pointer n₁.in_flight =
        (in_flight_pair r.next r.pointer _ n₁.in_flight begun₁).1 in
      let next_flies : 1 ≤ count r.next n'.in_flight =
        kept_in_flight r.pointer r.next n₁.in_flight n'.in_flight apart e.flying flies
          (in_flight_pair r.next r.pointer _ n₁.in_flight begun₁).0 in
      let (sound₁, clients₁) =
        round-IsSound fb js rd htonl ntohl a (incoming m p) (n, s) (n₁, stored m s) l.flying served
          l.sound in
      let (sound', clients') =
        round-IsSound fb js rd htonl ntohl a (sent m r.pointer) (n₁, stored m s) (n', stored m s)
          flies done sound₁ in
      (
        n₁,
        n',
        r.pointer,
        r.next,
        served,
        done,
        record {
          sound = sound';
          room = omega (arith, l.room, r.used, e.more);
          flying = next_flies;
          structure = o;
          found = e.others r.next apart ∙ here;
          receiving = recv;
        },
        record {
          known = ap (find (u32 key)) (clients' ∙ clients₁) ∙ k.known;
          has_socket = k.has_socket;
          opened = k.opened;
          accepted = k.accepted;
        },
        e.wire ∙ (rw k.accepted at r.wire),
        omega (arith, r.used, e.more),
      )
