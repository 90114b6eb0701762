-- ===== src/Server/Threads/Typed.antt =====
-- Which overlapped structures a round of Session.cpp uses: an ownership discipline over its accesses.
pub mod Rounds
use ranking_server.Base.{
  ℕ, ◌≤◌, ◌≡◌, inl, inr, List, [], ◌∷◌, Option, none, some, Bool, true, false, not, ◌==◌, ◌%◌, ◌^◌,
  if◌then◌else◌, arith, Option-cases, After,
}
use ranking_server.Outside.Flat.{FlatBuffers}
use ranking_server.Outside.Json.{JsonLibrary}
use ranking_server.Outside.Redis.{Redis}
use ranking_server.Packet.{
  CustomOverlapped, MessageHeader, OperationType, op_default, op_accept, op_recv, op_send, clear,
  read_header, transmitted,
}
use ranking_server.Packet.Buffers.{IsValid, clear_lem}
use ranking_server.Network.State.{Client, Answer, invalid_socket}
use ranking_server.Network.Client.{is_failed, prepare_send}
use ranking_server.Network.Session.{Completion, remove_first}
use ranking_server.Network.Ownership.{count}
use ranking_server.Network.Wire.{set_operation_type-IsValid}
use ranking_server.Network.Steady.{prepare_send-IsValid}
use ranking_server.Data.{score_to_json, read_ranking}
use ranking_server.Database.{get_cached_data, ranking_table}
use ranking_server.Protocol.RequestSaveScore
use ranking_server.Protocol.RequestPlayerRanking
use ranking_server.Server.Threads.{
  Program, stop, fault, pop_queue, look, hand_over, push_queue, find_client, ask, update,
}
use ranking_server.Server.Threads.Rounds.{
  or_fault, take_program, receive_program, send_program, send_to_program, give_back_program,
  deliver_program, rearm_program, handle_program, round_program, save_score_program,
  player_ranking_program, hub_read_program,
}

-- A program that holds the structures `held` reads and writes only structures that it holds, leaves
-- the buffers of each whole, and lets go of what it hands over or pushes. What `pop` gives it, it
-- holds. At its end it may hold structures still.
abbrev pub Uses : {W : Type 0} → List ℕ → Program W → Type 0
Uses held stop = Unit {0}
Uses held fault = Unit {0}
Uses held (pop_queue k) = (p : ℕ) → Uses (p ∷ held) (k p)
Uses held (look p k) = (1 ≤ count p held) × ((o : CustomOverlapped) → IsValid o → Uses held (k o))
Uses held (hand_over p o accepted sent k) =
    (1 ≤ count p held) × IsValid o × Uses (remove_first p held) k
Uses held (push_queue p o k) = (1 ≤ count p held) × IsValid o × Uses (remove_first p held) k
Uses held (find_client id k) = (found : Option Client) → Uses held (k found)
Uses {W} held (ask k) = (w : W) → Uses held (k w)
Uses held (update f k) = Uses held k

pub count_self : (p : ℕ) (held : List ℕ) → 1 ≤ count p (p ∷ held)
count_self p held = ground arith

pub remove_first_self : (p : ℕ) (held : List ℕ) → remove_first p (p ∷ held) ≡ held
unfolding remove_first
remove_first_self p held = ground arith

pub clear-After : (o : CustomOverlapped) → IsValid o → After IsValid (clear o)
clear-After o v = let (e, w) = clear_lem o v in rw e w

module _ {W : Type 0} where
  pub or_fault-Uses {ℓ} :
      {A : Type ℓ} (held : List ℕ) (m : Option A) (k : A → Program W)
      → ((x : A) → Uses held (k x))
      → Uses held (or_fault m k)
  or_fault-Uses held none k h = tt
  or_fault-Uses held (some x) k h = h x

  -- The same where what comes out is known to be whole.
  pub or_fault-After-Uses :
      (held : List ℕ) (m : Option CustomOverlapped) (k : CustomOverlapped → Program W)
      → After IsValid m
      → ((o : CustomOverlapped) → IsValid o → Uses held (k o))
      → Uses held (or_fault m k)
  or_fault-After-Uses held none k v h = tt
  or_fault-After-Uses held (some o) k v h = h o v

  pub if-Uses :
      (held : List ℕ) (b : Bool) (p q : Program W)
      → Uses held p
      → Uses held q
      → Uses held (if b then p else q)
  if-Uses held true p q h k = h
  if-Uses held false p q h k = k

  pub take_program-Uses :
      (held : List ℕ) (k : ℕ → CustomOverlapped → Program W)
      → ((p : ℕ) (o : CustomOverlapped) → IsValid o → Uses (p ∷ held) (k p o))
      → Uses held (take_program k)
  take_program-Uses held k h p = (
    count_self p held,
    λ o v. or_fault-After-Uses (p ∷ held) (clear o) (k p) (clear-After o v) (h p),
  )

  pub hand_over-Uses :
      (held : List ℕ) (p : ℕ) (o : CustomOverlapped) (accepted : Bool) (sent : List (ℕ × List ℕ))
      (k : Program W)
      → IsValid o
      → Uses held k
      → Uses (p ∷ held) (hand_over p o accepted sent k)
  hand_over-Uses held p o accepted sent k v h =
      (count_self p held, v, rw (remove_first_self p held) h)

  pub receive_program-Uses :
      (held : List ℕ) (c : Client) (error : ℕ) (a : Answer) (k : Program W)
      → Uses held k
      → Uses held (receive_program c error a k)
  receive_program-Uses held c error a k h = or_fault-Uses held c.socket _ λ socket.
      if-Uses held (not (error == 0)) _ _ h (
        take_program-Uses held _ λ p o v.
          hand_over-Uses held p _ (not (is_failed a)) [] k (set_operation_type-IsValid op_recv o v)
            h)

  pub send_program-Uses :
      (held : List ℕ) (c : Client) (header : MessageHeader) (body : List ℕ) (size : ℕ) (a : Answer)
      (k : Program W)
      → Uses held k
      → Uses held (send_program c header body size a k)
  send_program-Uses held c header body size a k h = elim (Option-cases c.socket) [
    | inl e ↦ rw e h
    | inr (socket, e) ↦ rw e (
        if-Uses held (socket == invalid_socket) _ _ h (
          take_program-Uses held _ λ p o v.
            or_fault-After-Uses (p ∷ held) (prepare_send header body size o) _
              (prepare_send-IsValid header body size o v)
              λ o' v'.
                hand_over-Uses held p o' (not (is_failed a))
                  (if is_failed a then [] else (socket, transmitted o') ∷ []) k v' h))
  ]

  pub send_to_program-Uses :
      (held : List ℕ) (htonl : ℕ → ℕ) (id contents_type : ℕ) (body : List ℕ) (size : ℕ) (a : Answer)
      (k : Program W)
      → Uses held k
      → Uses held (send_to_program htonl id contents_type body size a k)
  send_to_program-Uses held htonl id contents_type body size a k h none = h
  send_to_program-Uses held htonl id contents_type body size a k h (some c) =
      send_program-Uses held c _ body size a k h

  pub give_back_program-Uses :
      (held : List ℕ) (p : ℕ) (k : Program W)
      → Uses held k
      → Uses (p ∷ held) (give_back_program p k)
  give_back_program-Uses held p k h = (
    count_self p held,
    λ o v.
        or_fault-After-Uses (p ∷ held) (clear o) _ (clear-After o v)
          λ o' v'. (count_self p held, v', rw (remove_first_self p held) h),
  )

  pub found_program-Uses :
      (held : List ℕ) (k : Client → Program W)
      → ((client : Client) → Uses held (k client))
      → (found : Option Client) → Uses held (elim found [ none ↦ stop | some client ↦ k client ])
  found_program-Uses held k h none = tt
  found_program-Uses held k h (some client) = h client
