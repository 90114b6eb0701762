-- ===== src/Server/Threads/Coarse.antt =====
-- A round of Session.cpp as one step, among session threads beside each other.
use ranking_server.Base.{
  ℕ, zero, suc, ◌≤◌, ◌≡◌, refl, sym, subst, ◌∙◌, List, [], ◌∷◌, none, some, >>=-eq-some, get_elem?,
  get_elem?-set_self, set, set-set, replicate,
}
use ranking_server.Outside.Flat.{FlatBuffers}
use ranking_server.Outside.Json.{JsonLibrary}
use ranking_server.Outside.Redis.{Redis}
use ranking_server.Outside.Odbc.{Odbc}
use ranking_server.Outside.Calendar.{Calendar}
use ranking_server.Converter.{Codepages}
use ranking_server.Ring.{pop}
use ranking_server.Network.State.{Network, Answer, find}
use ranking_server.Network.Session.{Completion, round, dequeue, arrived}
use ranking_server.Network.Ownership.{count}
use ranking_server.Database.{ranking_data_load}
use ranking_server.Hub.{hub_read}
use ranking_server.Server.{Server}
use ranking_server.Server
use ranking_server.Server.Threads.{
  Program, stop, fault, pop_queue, look, hand_over, push_queue, find_client, ask, update, access,
  run, handed, pushed,
}
use ranking_server.Server.Threads.Rounds.{round_program, hub_read_program}
use ranking_server.Server.Threads.Steps.{Threads, Step, Reach}
use ranking_server.Server.Threads.Equal.Rounds.{round-interleaved}

module _ {W : Type 0} (ntohl : ℕ → ℕ)
    (callback : Answer → ℕ → ℕ → ℕ → List ℕ → Program W → Program W) (others : W → W → Type 0) where
  Reach-first :
      {s t u : Threads W}
      → Step ntohl callback others s t
      → Reach ntohl callback others t u
      → Reach ntohl callback others s u
  Reach-first st Reach.here = Reach.next Reach.here st
  Reach-first st (Reach.next r last) = Reach.next (Reach-first st r) last

  pub Reach-trans :
      {s t u : Threads W}
      → Reach ntohl callback others s t
      → Reach ntohl callback others t u
      → Reach ntohl callback others s u
  Reach-trans r Reach.here = r
  Reach-trans r (Reach.next r' last) = Reach.next (Reach-trans r r') last

  -- Thread `i` has run to the end of its program.
  abbrev Runs : Network → W → List (Program W) → ℕ → Network × W → Type 0
  Runs n w ps i r =
      Reach ntohl callback others (record { network = n; world = w; programs = ps })
        (record { network = r.0; world = r.1; programs = set ps i stop })

  access_then :
      (n : Network) (w : W) (ps : List (Program W)) (i : ℕ) (p : Program W)
      (a : Program W × Network × W) (r : Network × W)
      → get_elem? ps i ≡ some p
      → access p (n, w) ≡ some a
      → Runs a.1 a.2 (set ps i a.0) i r
      → Runs n w ps i r
  access_then n w ps i p a r e done rest =
      Reach-first (Step.advances i p a e done refl) (rw⁻¹ (set-set ps i a.0 stop) rest)

  set-same :
      (ps : List (Program W)) (i : ℕ) (p : Program W) → get_elem? ps i ≡ some p → set ps i p ≡ ps
  set-same [] i p e = refl
  set-same (q ∷ ps) zero p e = cc
  set-same (q ∷ ps) (suc i) p e = rw (set-same ps i p e) refl

  run-Runs :
      (p : Program W) (n : Network) (w : W) (ps : List (Program W)) (i : ℕ) (r : Network × W)
      → get_elem? ps i ≡ some p
      → run p (n, w) ≡ some r
      → Runs n w ps i r
  unfolding run access
  run-Runs stop n w ps i r e done =
      let same : (n, w) ≡ r = cc in
      subst (Runs n w ps i) same (rw (set-same ps i stop e) Reach.here)
  run-Runs fault n w ps i r e done = cc
  run-Runs (pop_queue k) n w ps i r e done =
      let (p, found, rest) = >>=-eq-some (pop none n.overlapped_queue).0 _ done in
      let rest_queue = (pop none n.overlapped_queue).1 in
      access_then n w ps i _ (k p, record n { overlapped_queue = rest_queue }, w) r e
        (rw found refl)
        (run-Runs (k p) _ w (set ps i (k p)) i r (get_elem?-set_self ps i (k p) _ e) rest)
  run-Runs (look p k) n w ps i r e done =
      let (o, found, rest) = >>=-eq-some (get_elem? n.overlapped p) _ done in
      access_then n w ps i _ (k o, n, w) r e (rw found refl)
        (run-Runs (k o) n w (set ps i (k o)) i r (get_elem?-set_self ps i (k o) _ e) rest)
  run-Runs (hand_over p o accepted sent k) n w ps i r e done =
      access_then n w ps i _ (k, handed p o accepted sent n, w) r e refl
        (run-Runs k _ w (set ps i k) i r (get_elem?-set_self ps i k _ e) done)
  run-Runs (push_queue p o k) n w ps i r e done =
      access_then n w ps i _ (k, pushed p o n, w) r e refl
        (run-Runs k _ w (set ps i k) i r (get_elem?-set_self ps i k _ e) done)
  run-Runs (find_client id k) n w ps i r e done =
      let p = k (find id n.client_map) in
      access_then n w ps i _ (p, n, w) r e refl
        (run-Runs (k (find id n.client_map)) n w (set ps i p) i r (get_elem?-set_self ps i p _ e)
          done)
  run-Runs (ask k) n w ps i r e done =
      access_then n w ps i _ (k w, n, w) r e refl
        (run-Runs (k w) n w (set ps i (k w)) i r (get_elem?-set_self ps i (k w) _ e) done)
  run-Runs (update f k) n w ps i r e done =
      access_then n w ps i _ (k, n, f w) r e refl
        (run-Runs k n (f w) (set ps i k) i r (get_elem?-set_self ps i k _ e) done)

-- `k` session threads that wait.
abbrev pub threads_of : {rd : Redis} {od : Odbc} → ℕ → Server rd od → Threads rd.Store
threads_of k s = record { network = s.network; world = s.cache; programs = replicate k stop }

-- What the main thread's loading of the ranking and the passing of time make of the cache.
pub data CacheMove (js : JsonLibrary) (rd : Redis) (cp : Codepages) (cal : Calendar) (od : Odbc)
    (w w' : rd.Store) : Type 0 where
  loaded :
      (db : od.Db)
      → ranking_data_load js rd cp cal od db w ≡ some w'
      → CacheMove js rd cp cal od w w'
  elapsed : (t : ℕ) → w' ≡ rd.elapse t w → CacheMove js rd cp cal od w w'

module _ (fb : FlatBuffers) (js : JsonLibrary) (rd : Redis) (htonl ntohl : ℕ → ℕ) where
  -- A round that a waiting thread makes without a fault can be made access by access, and leaves the
  -- threads waiting.
  round-Reach :
      (others : rd.Store → rd.Store → Type 0) (s : Threads rd.Store) (i : ℕ) (c : Completion)
      (a : Answer) (r : Network × rd.Store)
      → get_elem? s.programs i ≡ some stop
      → 1 ≤ count c.pointer s.network.in_flight
      → round ntohl (hub_read fb js rd htonl a) c (s.network, s.world) ≡ some r
      → Reach ntohl
          (hub_read_program fb js rd htonl)
          others
          s
          (record { network = r.0; world = r.1; programs = s.programs })
  round-Reach others s i c a r idle flying done =
      let (o, found, ran) =
        >>=-eq-some (get_elem? s.network.overlapped c.pointer) _
          (sym (round-interleaved fb js rd htonl a ntohl c (s.network, s.world)) ∙ done) in
      let o' = arrived c.received o in
      let p = round_program ntohl (hub_read_program fb js rd htonl a) c o' in
      let ends =
        run-Runs ntohl (hub_read_program fb js rd htonl) others p (dequeue c o' s.network) s.world
          (set s.programs i p) i r (get_elem?-set_self s.programs i p stop idle) ran in
      let restored : set (set s.programs i p) i stop ≡ s.programs =
        set-set s.programs i p stop
        ∙ set-same ntohl (hub_read_program fb js rd htonl) others s.programs i stop idle in
      Reach-first ntohl (hub_read_program fb js rd htonl) others
        (Step.begins i c a o idle flying found refl)
        (subst
          (λ ps.
            Reach ntohl (hub_read_program fb js rd htonl) others
              (record {
                network = dequeue c o' s.network;
                world = s.world;
                programs = set s.programs i p;
              })
              (record { network = r.0; world = r.1; programs = ps }))
          restored ends)

  module _ (cp : Codepages) (cal : Calendar) (od : Odbc) where
    Step-Reach :
        (k : ℕ) {s u : Server rd od}
        → Server.Step fb js rd cp cal od htonl ntohl s u
        → Reach ntohl
            (hub_read_program fb js rd htonl)
            (CacheMove js rd cp cal od)
            (threads_of (suc k) s)
            (threads_of (suc k) u)
    Step-Reach k {s} (Server.Step.completed c a s' flying done e) =
        rw e
          (round-Reach (CacheMove js rd cp cal od) (threads_of (suc k) s) 0 c a s' refl flying done)
    Step-Reach k (Server.Step.saves fuel db' asleep long done e) = rw e Reach.here
    Step-Reach k (Server.Step.updates after e) = rw e Reach.here
    Step-Reach k {s} (Server.Step.loads cache' after done e) =
        rw e (Reach.next Reach.here (Step.changes cache' (loaded s.db done) refl))
    Step-Reach k {s} (Server.Step.waited t e) =
        rw e (Reach.next Reach.here (Step.changes (rd.elapse t s.cache) (elapsed t refl) refl))

    -- Whatever network and cache the server reaches by whole rounds of session threads, the calls of
    -- Hub::Work and the passing of time, one or more session threads that wait can reach access by
    -- access, and wait again, where besides them the cache is changed only by whole loads of the
    -- ranking and the passing of time.
    pub rounds_interleave :
        (k : ℕ) (s u : Server rd od)
        → Server.Reach fb js rd cp cal od htonl ntohl s u
        → Reach ntohl
            (hub_read_program fb js rd htonl)
            (CacheMove js rd cp cal od)
            (threads_of (suc k) s)
            (threads_of (suc k) u)
    rounds_interleave k s _ Server.Reach.here = Reach.here
    rounds_interleave k s u (Server.Reach.next {t} r st) =
        Reach-trans ntohl (hub_read_program fb js rd htonl) (CacheMove js rd cp cal od)
          (rounds_interleave k s t r) (Step-Reach k st)
