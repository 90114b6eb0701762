-- ===== src/Server/Threads/Apart.antt =====
-- The session threads that `NetworkManager::Ready` starts, with the hub as their callback, over
-- everything they may do beside each other.
use ranking_server.Base.{ℕ, ◌≡◌, ◌≢◌, ◌⊎◌, some, get_elem?}
use ranking_server.Outside.Flat.{FlatBuffers}
use ranking_server.Outside.Json.{JsonLibrary}
use ranking_server.Outside.Redis.{Redis}
use ranking_server.Outside.Odbc.{Odbc}
use ranking_server.Network.State.{Network}
use ranking_server.Network.Ownership.{owners}
use ranking_server.Server.{Server}
use ranking_server.Server.Starts.{IsSound}
use ranking_server.Server.Threads.{Program, access}
use ranking_server.Server.Threads.Rounds.{hub_read_program}
use ranking_server.Server.Threads.Typed.Rounds.{hub_read_program-IsTyped}
use ranking_server.Server.Threads.Steps.{Threads, Reach}
use ranking_server.Server.Threads.Advance.{Ends}
use ranking_server.Server.Threads.Coarse.{threads_of}
use ranking_server.Server.Threads.Safe.{
  IsSafe, Reach-IsSafe, idle-IsSafe, Touches, touch_alone, access_or_end,
}

module _ (fb : FlatBuffers) (js : JsonLibrary) (rd : Redis) (od : Odbc) (htonl ntohl : ℕ → ℕ)
    (k : ℕ) (s : Server rd od) (sound : IsSound s.network) (u : Threads rd.Store)
    (others : rd.Store → rd.Store → Type 0)
    (reach : Reach ntohl (hub_read_program fb js rd htonl) others (threads_of k s) u) where
  reached-IsSafe : IsSafe u
  reached-IsSafe =
      Reach-IsSafe ntohl (hub_read_program fb js rd htonl) (hub_read_program-IsTyped fb js rd htonl)
        others (idle-IsSafe s.network s.cache k sound) reach

  -- Session threads beside each other, of which any may make the next access to the queue, an
  -- overlapped structure, a socket, the client map or the cache, where a push or a pop is one
  -- access, whatever others do to the cache: from a sound network and threads that wait, in every
  -- state that they reach, a structure that a thread's next access reads, hands over or pushes is
  -- neither in the queue nor in flight, and no other thread's next access does so.
  pub threads_apart :
      (q i : ℕ) (t : Program rd.Store)
      → get_elem? u.programs i ≡ some t
      → Touches q t
      → (owners q u.network ≡ 0)
        × ((j : ℕ) (t' : Program rd.Store)
            → j ≢ i
            → get_elem? u.programs j ≡ some t'
            → ¬ Touches q t')
  threads_apart q i t e touch = touch_alone u q i t reached-IsSafe e touch

  -- In every state that session threads reach from a sound network where all of them wait, whatever
  -- others do to the cache, the next access of a thread has a result, unless the thread's round is
  -- at its end, or in undefined behaviour of its own, or would pop from the empty queue.
  pub threads_advance :
      (i : ℕ) (t : Program rd.Store)
      → get_elem? u.programs i ≡ some t
      → Ends t u.network
        ⊎ ((r : Program rd.Store × Network × rd.Store) × (access t (u.network, u.world) ≡ some r))
  threads_advance i t e = access_or_end u i t reached-IsSafe e
