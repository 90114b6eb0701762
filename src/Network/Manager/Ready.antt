-- ===== src/Network/Manager/Ready.antt =====
-- What `Initialize` of NetworkManager.cpp leaves behind, for `Ready` and `Send`.
use ranking_server.Base.{
  ℕ, zero, suc, ◌+◌, ◌≡◌, List, [], ◌∷◌, none, some, Bool, arith, if◌then◌else◌, leb, ltb, ◌&&◌,
}
use ranking_server.Network.State.{find}
use ranking_server.Network.Client.{initialize}
use ranking_server.Network.Client
use ranking_server.Network.Manager.{close_socket, wsa_cleanup, Cleanup, make_clients}

-- Whether a clean-up leaves no socket library running and no listening socket open.
abbrev pub IsCleaned : Bool → List Cleanup → Type 0
IsCleaned has_socket cs =
    cs ≡ (if has_socket then close_socket ∷ wsa_cleanup ∷ [] else wsa_cleanup ∷ [])

-- The client map has, for each of the k indices from i on, a client with that index as its socket id
-- and the socket made for it, and none for any other index.
pub find-make_clients :
    (sockets : ℕ → ℕ) (k i id : ℕ)
    → find id (make_clients sockets k i) ≡ (
        if leb i id && ltb id (i + k)
        then some (initialize (sockets id) id Client.create)
        else none)
unfolding find make_clients
find-make_clients sockets zero i id = ground arith
find-make_clients sockets (suc k) i id = ground (arith, find-make_clients sockets k (i + 1) id)
