-- ===== src/Server.antt =====
-- The whole server, which RankingServer/main.cpp starts: the session threads handle completions while
-- the main thread saves scores and renews the ranking.
pub mod Starts
pub mod Sound
pub mod Returns
pub mod Work
pub mod Threads
use ranking_server.Base.{ℕ, ◌+◌, ◌*◌, ◌≡◌, ◌≤◌, Option, some, ◌>>=◌, true}
use ranking_server.Outside.Flat.{FlatBuffers}
use ranking_server.Outside.Json.{JsonLibrary}
use ranking_server.Outside.Redis.{Redis}
use ranking_server.Outside.Odbc.{Odbc}
use ranking_server.Outside.Calendar.{Calendar}
use ranking_server.Converter.{Codepages}
use ranking_server.Network.State.{Network, Answer}
use ranking_server.Network.Manager.{Platform, AcceptAnswer}
use ranking_server.Network.Session.{Completion, round}
use ranking_server.Network.Ownership.{count}
use ranking_server.Database.{score_data_save, ranking_update, ranking_data_load}
use ranking_server.Hub.{hub_read, hub_initialize, socket_max, update_interval}

-- Where the main thread is in a round of `Hub::Work`: in the sleep, after `ScoreDataSave` or after
-- `RankingUpdate`.
pub data Phase : Type 0 where
  sleeps saved updated : Phase

-- What the threads share: the network, the cache and the database. `phase` is the main thread's, and
-- `slept` the seconds since its last round.
pub record Server (rd : Redis) (od : Odbc) : Type 0 where
  pub network : Network
  pub cache : rd.Store
  pub db : od.Db
  pub phase : Phase
  pub slept : ℕ

module _ (fb : FlatBuffers) (js : JsonLibrary) (rd : Redis) (cp : Codepages) (cal : Calendar)
    (od : Odbc) (htonl ntohl : ℕ → ℕ) where
  -- What may happen next: a session thread handles a completion of a structure that is in flight, the
  -- main thread, which sleeps for the interval at least, makes the next call of its round, or time
  -- passes. A step that faults is none. `fuel` bounds the rounds of the SCAN loop.
  pub data Step (s u : Server rd od) : Type 0 where
    completed :
        (c : Completion) (a : Answer) (s' : Network × rd.Store)
        → 1 ≤ count c.pointer s.network.in_flight
        → round ntohl (hub_read fb js rd htonl a) c (s.network, s.cache) ≡ some s'
        → u ≡ record s { network = s'.0; cache = s'.1 }
        → Step s u
    saves :
        (fuel : ℕ) (db' : od.Db)
        → s.phase ≡ sleeps
        → 60 * update_interval ≤ s.slept
        → score_data_save js rd cp cal od fuel s.cache s.db ≡ some (true, db')
        → u ≡ record s { db = db'; phase = saved }
        → Step s u
    updates :
        s.phase ≡ saved
        → u ≡ record s { db = ranking_update js rd cp cal od s.db; phase = updated }
        → Step s u
    loads :
        (cache' : rd.Store)
        → s.phase ≡ updated
        → ranking_data_load js rd cp cal od s.db s.cache ≡ some cache'
        → u ≡ record s { cache = cache'; phase = sleeps; slept = 0 }
        → Step s u
    waited : (t : ℕ) → u ≡ record s { cache = rd.elapse t s.cache; slept = s.slept + t } → Step s u

  pub data Reach (s : Server rd od) : Server rd od → Type 0 where
    here : Reach s s
    next : {t u : Server rd od} → Reach s t → Step t u → Reach s u

  -- `hub.Initialize` in `main`, and the state that `hub.Work` and the sessions begin with.
  unfoldable pub main_start :
      Platform → (ℕ → AcceptAnswer) → od.Db → rd.Store → Option (Server rd od)
  main_start p answers db s = do
    (n, s') ← hub_initialize js rd cp cal od p socket_max answers db s
    some (record { network = n; cache = s'; db = db; phase = sleeps; slept = 0 })
