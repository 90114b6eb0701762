-- ===== src/Server/Threads/Steps.antt =====
-- The session threads of Session.cpp beside each other: any of them may make the next access.
use ranking_server.Base.{ℕ, ◌≤◌, ◌≡◌, List, some, get_elem?, set}
use ranking_server.Packet.{CustomOverlapped}
use ranking_server.Network.State.{Network, Answer}
use ranking_server.Network.Session.{Completion, dequeue, arrived}
use ranking_server.Network.Ownership.{count}
use ranking_server.Server.Threads.{Program, stop, access}
use ranking_server.Server.Threads.Rounds.{round_program}

-- A thread with the program `stop` waits in GetQueuedCompletionStatus.
pub record Threads (W : Type 0) : Type 0 where
  pub network : Network
  pub world : W
  pub programs : List (Program W)

module _ {W : Type 0} (ntohl : ℕ → ℕ)
    (callback : Answer → ℕ → ℕ → ℕ → List ℕ → Program W → Program W) (others : W → W → Type 0) where
  -- A waiting thread gets a completion of a structure in flight, a thread makes its next access, or
  -- the main thread or time changes the cache as `others` allows. Each access is one step: also a push or a pop.
  pub data Step (s u : Threads W) : Type 0 where
    begins :
        (i : ℕ) (c : Completion) (a : Answer) (o : CustomOverlapped)
        → get_elem? s.programs i ≡ some stop
        → 1 ≤ count c.pointer s.network.in_flight
        → get_elem? s.network.overlapped c.pointer ≡ some o
        → u ≡ record s {
          network = dequeue c (arrived c.received o) s.network;
          programs = set s.programs i (round_program ntohl (callback a) c (arrived c.received o));
        }
        → Step s u
    advances :
        (i : ℕ) (p : Program W) (r : Program W × Network × W)
        → get_elem? s.programs i ≡ some p
        → access p (s.network, s.world) ≡ some r
        → u ≡ record { network = r.1; world = r.2; programs = set s.programs i r.0 }
        → Step s u
    changes : (w : W) → others s.world w → u ≡ record s { world = w } → Step s u

  pub data Reach (s : Threads W) : Threads W → Type 0 where
    here : Reach s s
    next : {t u : Threads W} → Reach s t → Step t u → Reach s u
