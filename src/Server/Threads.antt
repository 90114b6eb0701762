-- ===== src/Server/Threads.antt =====
-- Session threads one access at a time: what Session.cpp, Client.cpp, NetworkManager.cpp and Hub.cpp
-- do between two accesses to what the threads share.
pub mod Rounds
pub mod Equal
pub mod Typed
pub mod Steps
pub mod Advance
pub mod Holders
pub mod Safe
pub mod Coarse
pub mod Apart
pub mod Torn
use ranking_server.Base.{ℕ, List, ◌++◌, Option, none, some, ◌>>=◌, Bool, get_elem?, set}
use ranking_server.Ring.{push, pop}
use ranking_server.Packet.{CustomOverlapped}
use ranking_server.Network.State.{Client, Network, find, start}

-- What is left of a round, up to its next access: to the queue, to an overlapped structure, to a socket
-- (WSASend or WSARecv of a structure, whether it was accepted, and what went out), to the client map,
-- or to the cache, whose type is `W`. `fault` is undefined behaviour.
pub data Program (W : Type 0) : Type 0 where
  stop fault : Program W
  pop_queue : (ℕ → Program W) → Program W
  look : ℕ → (CustomOverlapped → Program W) → Program W
  hand_over : ℕ → CustomOverlapped → Bool → List (ℕ × List ℕ) → Program W → Program W
  push_queue : ℕ → CustomOverlapped → Program W → Program W
  find_client : ℕ → (Option Client → Program W) → Program W
  ask : (W → Program W) → Program W
  update : (W → W) → Program W → Program W

-- A structure goes to a socket; what the socket has sent goes on the wire.
abbrev pub handed : ℕ → CustomOverlapped → Bool → List (ℕ × List ℕ) → Network → Network
handed p o accepted sent n = let n' = start p o accepted n in record n' { wire = n'.wire ++ sent }

abbrev pub pushed : ℕ → CustomOverlapped → Network → Network
pushed p o n = record n {
  overlapped = set n.overlapped p o;
  overlapped_queue = (push n.overlapped_queue (some p)).1;
}

module _ {W : Type 0} where
  -- One access. A program that has stopped makes none.
  unfoldable pub access : Program W → Network × W → Option (Program W × Network × W)
  access stop s = none
  access fault s = none
  access (pop_queue k) (n, w) =
      let (front, rest) = pop none n.overlapped_queue in
      do p ← front; some (k p, record n { overlapped_queue = rest }, w)
  access (look p k) (n, w) = do o ← get_elem? n.overlapped p; some (k o, n, w)
  access (hand_over p o accepted sent k) (n, w) = some (k, handed p o accepted sent n, w)
  access (push_queue p o k) (n, w) = some (k, pushed p o n, w)
  access (find_client id k) (n, w) = some (k (find id n.client_map), n, w)
  access (ask k) (n, w) = some (k w, n, w)
  access (update f k) (n, w) = some (k, n, f w)

  -- A program run to its end with no other thread in between.
  unfoldable pub run : Program W → Network × W → Option (Network × W)
  run stop s = some s
  run fault s = none
  run (pop_queue k) (n, w) =
      let (front, rest) = pop none n.overlapped_queue in
      do p ← front; run (k p) (record n { overlapped_queue = rest }, w)
  run (look p k) (n, w) = do o ← get_elem? n.overlapped p; run (k o) (n, w)
  run (hand_over p o accepted sent k) (n, w) = run k (handed p o accepted sent n, w)
  run (push_queue p o k) (n, w) = run k (pushed p o n, w)
  run (find_client id k) (n, w) = run (k (find id n.client_map)) (n, w)
  run (ask k) (n, w) = run (k w) (n, w)
  run (update f k) (n, w) = run k (n, f w)
