-- ===== src/Server/Returns.antt =====
-- main.cpp on a machine where no call of `Initialize` fails.
use ranking_server.Base.{
  ℕ, ◌+◌, ◌≤◌, ◌<◌, ◌≡◌, ap, ◌∙◌, Option, none, some, false, ◌==◌, arith, length,
}
use ranking_server.Outside.Flat.{FlatBuffers}
use ranking_server.Outside.Json.{JsonLibrary}
use ranking_server.Outside.Redis.{Redis}
use ranking_server.Outside.Odbc.{Odbc}
use ranking_server.Outside.Calendar.{Calendar}
use ranking_server.Converter.{Codepages}
use ranking_server.Packet.{header_size, buffer_size}
use ranking_server.Database.{data_load_in_sql}
use ranking_server.Ring.{Ring, construct}
use ranking_server.Network.State.{Network, invalid_socket}
use ranking_server.Network.Manager.{
  Platform, AcceptAnswer, initialize_manager, started, make_network, ready_manager,
  overlapped_count, start_sessions, num_threads,
}
use ranking_server.Network.Manager.Pool.{length-pointers, initialize_loses_last}
use ranking_server.Network.Manager.Stock.{initialize_manager-IsStocked}
use ranking_server.Network.Supply.{IsStocked}
use ranking_server.Network.Accepts.{
  free, HasEnds, accept_all_returns, make_clients-HasSockets, length-make_clients,
}
use ranking_server.Hub.{hub_initialize, socket_max}
use ranking_server.Server.{sleeps, main_start}

-- Every call of `Initialize` succeeds, and `new` gives arrays of the sizes asked for.
pub record IsWorking (p : Platform) : Type 0 where
  pub wsa_startup : p.wsa_startup_fails ≡ false
  pub socket : (p.listen_socket == invalid_socket) ≡ false
  pub bind : p.bind_fails ≡ false
  pub listen : p.listen_fails ≡ false
  pub port : p.port_fails ≡ false
  pub attach : p.attach_fails ≡ false
  pub ioctl : p.ioctl_fails ≡ false
  pub cells : (i : ℕ) → (length (p.cells i).0 ≡ header_size) × (length (p.cells i).1 ≡ buffer_size)

initialize_manager-IsWorking :
    (p : Platform) (sockets : ℕ)
    → IsWorking p
    → initialize_manager p sockets ≡ started (make_network p sockets)
unfolding initialize_manager
initialize_manager-IsWorking p sockets w =
    rw (w.wsa_startup, w.socket, w.bind, w.listen, w.port, w.attach, w.ioctl)

-- Up to 199 clients can be made ready.
ready_manager_returns :
    (p : Platform) (sockets : ℕ) (answers : ℕ → AcceptAnswer)
    → IsWorking p
    → HasEnds answers
    → sockets < overlapped_count
    → (r : Network × Ring (Option ℕ)) × (ready_manager p answers (initialize_manager p sockets)
        ≡ some r)
      × (overlapped_count ≤ free r.0 + sockets + 1)
      × IsStocked r.0
unfolding ready_manager
ready_manager_returns p sockets answers w ends h =
    let e = initialize_manager-IsWorking p sockets w in
    let n = make_network p sockets in
    let (made, shown, valid) = initialize_loses_last p sockets n e in
    let k = length-make_clients p.sockets sockets 1 in
    let room = ap length shown ∙ length-pointers 0 199 in
    let (n', done, used, stocked) =
      accept_all_returns answers n.client_map n ends
        (initialize_manager-IsStocked p sockets n w.cells e)
        (make_clients-HasSockets p.sockets sockets 1) (omega (arith, k, room)) in
    (
      (n', start_sessions (num_threads p) 0 (construct none (num_threads p + 1))),
      rw (e, done),
      omega (arith, k, room, used),
      stocked,
    )

module _ (fb : FlatBuffers) (js : JsonLibrary) (rd : Redis) (cp : Codepages) (cal : Calendar)
    (od : Odbc) (htonl ntohl : ℕ → ℕ) where
  -- Where no call of NetworkManager::Initialize fails, new gives arrays of the sizes asked for, the
  -- cache can be loaded from SQL and the compiler lets AcceptReady return some value at its end,
  -- which has no return, Hub::Initialize as main calls it returns, whatever AcceptEx and getsockopt
  -- answer for the ten clients: at least 189 structures are left in the queue, the network is
  -- stocked, and the cache is what was loaded.
  pub main_start_returns :
      (p : Platform) (answers : ℕ → AcceptAnswer) (db : od.Db) (cache cache' : rd.Store)
      → IsWorking p
      → HasEnds answers
      → data_load_in_sql js rd cp cal od db cache ≡ some cache'
      → (n : Network) × (main_start fb js rd cp cal od htonl ntohl p answers db cache
          ≡ some (record { network = n; cache = cache'; db = db; phase = sleeps; slept = 0 }))
        × (189 ≤ free n)
        × IsStocked n
  unfolding main_start hub_initialize
  main_start_returns p answers db cache cache' w ends loaded =
      let (r, done, room, stocked) =
        ready_manager_returns p socket_max answers w ends (omega arith) in
      (r.0, rw (loaded, done), omega (arith, room), stocked)
