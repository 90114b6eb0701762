-- ===== src/Examples/Startup.antt =====
-- NetworkManager.cpp at concrete inputs.
use ranking_server.Base.{◌+◌, ◌≡◌, refl, List, [], none, true, false, length, replicate}
use ranking_server.Ring.{printed}
use ranking_server.Ring.Bounds.{IsValid}
use ranking_server.Network.Manager.{Platform, started, Cleanup, initialize_manager, make_network}
use ranking_server.Network.Manager.Pool.{initialize_loses_last, pointers}

abbrev pub machine : Platform
machine = record {
  processors = 4;
  wsa_startup_fails = false;
  listen_socket = 9;
  bind_fails = false;
  listen_fails = false;
  port_fails = false;
  attach_fails = false;
  ioctl_fails = false;
  sockets = λ i. 500 + i;
  cells = λ i. (replicate 12 0, replicate 1024 0);
}

machine-starts : initialize_manager machine 10 ≡ started (make_network machine 10)
unfolding initialize_manager
machine-starts = refl

initialize_loses_last_example :
    let n = make_network machine 10 in
    (length n.overlapped ≡ 200)
    × (printed none n.overlapped_queue ≡ pointers 0 199)
    × IsValid n.overlapped_queue
initialize_loses_last_example =
    initialize_loses_last machine 10 (make_network machine 10) machine-starts

abbrev nothing : List Cleanup
nothing = []

abbrev deaf : Platform
deaf = record machine { ioctl_fails = true }
