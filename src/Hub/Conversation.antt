-- ===== src/Hub/Conversation.antt =====
-- A client that saves one score after another: the session rounds of its requests and of their answers.
use ranking_server.Base.{
  ℕ, suc, ◌≡◌, refl, sym, ap, ◌∙◌, List, [], ◌∷◌, ◌++◌, append-nil, append_assoc, some, length,
}
use ranking_server.Outside.Flat.{FlatBuffers}
use ranking_server.Outside.Json.{JsonLibrary}
use ranking_server.Outside.Redis.{Redis}
use ranking_server.Network.State.{Network, Client, Answer}
use ranking_server.Network.Session.{Completion, process}
use ranking_server.Network.Accepts.{free}
use ranking_server.Hub.{hub_read}
use ranking_server.Hub.Turn.{
  Saving, Listens, IsFine, incoming, sent, stored, on_wire, IsOpen, exchange-Listens,
}

module _ (fb : FlatBuffers) (js : JsonLibrary) (rd : Redis) (htonl ntohl : ℕ → ℕ) (a : Answer)
    (key : ℕ) (client : Client) (socket : ℕ) where
  -- The completions of a conversation, by the structures that received and sent.
  abbrev pub played : List Saving → List (ℕ × ℕ) → List Completion
  played (m ∷ ms) ((p, r) ∷ ps) =
      incoming fb js rd htonl ntohl a key client socket m p
      ∷ sent fb js rd htonl ntohl a key client socket m r
      ∷ played ms ps
  played _ _ = []

  abbrev pub AllFine : List Saving → Type 0
  AllFine [] = Unit
  AllFine (m ∷ ms) = IsFine fb js rd htonl ntohl a key client socket m × AllFine ms

  abbrev pub all_stored : List Saving → rd.Store → rd.Store
  all_stored [] s = s
  all_stored (m ∷ ms) s = all_stored ms (stored fb js rd htonl ntohl a key client socket m s)

  abbrev pub all_on_wire : List Saving → List (ℕ × List ℕ)
  all_on_wire [] = []
  all_on_wire (m ∷ ms) = on_wire fb js rd htonl ntohl a key client socket m ∷ all_on_wire ms

  -- A client that is known, with an open socket, can save any number of scores one after the other:
  -- from a sound network on which a structure in flight receives for it and two are left in the
  -- queue, and where WSASend and WSARecv do not fail, each request is well formed, with values of
  -- the fields' types and a time that with nine hours more does not overflow, its score can be
  -- dumped as JSON and its confirmation fits, there are structures such that the session loop over
  -- the completions of each request and then of the send of all bytes of its answer, in these
  -- structures, returns. After it the cache has been sent all scores in order, just the
  -- confirmations have gone out, in order, the queue is as long as before, and the network is again
  -- sound with a structure that receives.
  pub conversation :
      (ms : List Saving) (n : Network) (p : ℕ) (s : rd.Store)
      → AllFine ms
      → IsOpen fb js rd htonl ntohl a key client socket n
      → Listens n p
      → (ps : List (ℕ × ℕ)) × (n' : Network) × (q : ℕ) × (length ps ≡ length ms)
        × (process ntohl (hub_read fb js rd htonl a) (played ms ps) (n, s)
            ≡ some (n', all_stored ms s))
        × Listens n' q
        × (n'.wire ≡ n.wire ++ all_on_wire ms)
        × (free n' ≡ free n)
  unfolding process
  conversation [] n p s f k l = ([], n, p, refl, refl, l, sym (append-nil n.wire), refl)
  conversation (m ∷ ms) n p s (f, fs) k l =
      let (n₁, n₂, r, q, first, second, l', k', wire, same) =
        exchange-Listens fb js rd htonl ntohl a key client socket m n p s f k l in
      let (ps, n', q', len, run, l'', wire', same') =
        conversation ms n₂ q (stored fb js rd htonl ntohl a key client socket m s) fs k' l' in
      (
        (p, r) ∷ ps,
        n',
        q',
        ap suc len,
        rw (first, second, run),
        l'',
        wire'
            ∙ ap (λ w. w ++ all_on_wire ms) wire
            ∙ append_assoc n.wire (on_wire fb js rd htonl ntohl a key client socket m ∷ [])
                (all_on_wire ms),
        same' ∙ same,
      )
