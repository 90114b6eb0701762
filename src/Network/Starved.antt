-- ===== src/Network/Starved.antt =====
-- Client.cpp where no overlapped structure is left.
use ranking_server.Base.{Option, ℕ, ◌≡◌, ◌≢◌, List, none, some, Bool, ==_iff, ==_of_ne}
use ranking_server.Ring.Contents.{pop_empty}
use ranking_server.Packet.{MessageHeader}
use ranking_server.Network.State.{Network, Client, Answer, take_overlapped, invalid_socket}
use ranking_server.Network.Client.{receive_ready, accept_ready, send}

take_overlapped_empty :
    (n : Network) → n.overlapped_queue.output ≡ n.overlapped_queue.input → take_overlapped n ≡ none
unfolding take_overlapped
take_overlapped_empty n e = rw (pop_empty none n.overlapped_queue ((==_iff _ _).1 e))

-- With no structure left in the queue, ReceiveReady and AcceptReady of a client with a socket that
-- is not in error, and Send to a socket that is not INVALID_SOCKET, are undefined behaviour: the
-- null pointer that pop returns is read through.
pub calls_starved :
    (n : Network) (c : Client) (socket : ℕ) (a : Answer) (result : Bool) (last_error : ℕ)
    (end_value : Option Bool) (header : MessageHeader) (body : List ℕ) (size : ℕ)
    → n.overlapped_queue.output ≡ n.overlapped_queue.input
    → c.socket ≡ some socket
    → socket ≢ invalid_socket
    → (receive_ready c 0 a n ≡ none)
      × (accept_ready c 0 result last_error end_value n ≡ none)
      × (send c header body size a n ≡ none)
unfolding receive_ready accept_ready send
calls_starved n c socket a result last_error end_value header body size e has_socket opened =
    let t = take_overlapped_empty n e in
    (rw (has_socket, t), rw (has_socket, t), rw (has_socket, send, ==_of_ne opened, t))
