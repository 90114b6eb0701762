-- ===== src/Ring/Atomic/Fits.antt =====
-- One pushing and one popping thread in LockFreeCircleQueue.h: what each knows of the queue, and that
-- the stores of the other leave it true.
use ranking_server.Base.{◌≡◌, ◌≢◌, sym, ◌∙◌, List, ◌++◌, set, get_or, get_or-set_ne}
use ranking_server.Ring.{Ring, next_index, printed}
use ranking_server.Ring.Bounds.{IsValid, next_index-ne}
use ranking_server.Ring.Atomic.{
  Pusher, load_input, check_full, write_cell, store_input, returned, Popper, load_output,
  check_empty, read_cell, store_output, popped, System,
}

abbrev pub system : {A : Type 0} → Ring A → Pusher A → Popper A → List A → List A → System A
system r p q sent received = record {
  ring = r;
  pusher = p;
  popper = q;
  sent = sent;
  received = received;
}

module _ {A : Type 0} (null : A) where
  -- What the locals of a thread say about the queue, whatever the other thread did since.
  abbrev pub PusherFits : Ring A → Pusher A → Type 0
  PusherFits r (load_input x) = Unit {0}
  PusherFits r (check_full x i) = i ≡ r.input
  PusherFits r (write_cell x i) = (i ≡ r.input) × (next_index r r.input ≢ r.output)
  PusherFits r (store_input x i) =
      (i ≡ r.input) × (next_index r r.input ≢ r.output) × (get_or r.buffer r.input null ≡ x)
  PusherFits r (returned b) = Unit {0}

  abbrev pub PopperFits : Ring A → Popper A → Type 0
  PopperFits r load_output = Unit {0}
  PopperFits r (check_empty o) = o ≡ r.output
  PopperFits r (read_cell o) = (o ≡ r.output) × (r.output ≢ r.input)
  PopperFits r (store_output o a) =
      (o ≡ r.output) × (r.output ≢ r.input) × (a ≡ get_or r.buffer r.output null)
  PopperFits r (popped a) = Unit {0}

  -- Nothing is lost, made up, doubled or reordered: what was sent is what was received, followed by
  -- what is in the queue.
  pub record Inv (s : System A) : Type 0 where
    pub valid : IsValid s.ring
    pub pusher_fits : PusherFits s.ring s.pusher
    pub popper_fits : PopperFits s.ring s.popper
    pub delivered : s.sent ≡ s.received ++ printed null s.ring

  module _ (r : Ring A) (v : IsValid r) where
    -- A store to the free cell leaves what the popping thread knows.
    pub write-PopperFits :
        (q : Popper A) (x : A)
        → PopperFits r q
        → PopperFits (record r { buffer = set r.buffer r.input x }) q
    write-PopperFits load_output x f = tt
    write-PopperFits (check_empty o) x f = f
    write-PopperFits (read_cell o) x f = f
    write-PopperFits (store_output o a) x f =
        (f.0, f.1, f.2 ∙ sym (get_or-set_ne r.buffer r.input r.output x null (λ e. f.1 (sym e))))
    write-PopperFits (popped a) x f = tt

    -- So does a store to `mInputIndex`: a queue that was not empty is not empty after it.
    pub publish-PopperFits :
        (q : Popper A)
        → next_index r r.input ≢ r.output
        → PopperFits r q
        → PopperFits (record r { input = next_index r r.input }) q
    publish-PopperFits load_output ne f = tt
    publish-PopperFits (check_empty o) ne f = f
    publish-PopperFits (read_cell o) ne f = (f.0, λ e. ne (sym e))
    publish-PopperFits (store_output o a) ne f = (f.0, (λ e. ne (sym e)), f.2)
    publish-PopperFits (popped a) ne f = tt

    -- A store to `mOutputIndex` leaves the room that the pushing thread has seen.
    pub advance-PusherFits :
        (p : Pusher A)
        → r.output ≢ r.input
        → PusherFits r p
        → PusherFits (record r { output = next_index r r.output }) p
    advance-PusherFits (load_input x) ne f = tt
    advance-PusherFits (check_full x i) ne f = f
    advance-PusherFits (write_cell x i) ne f = (f.0, next_index-ne r v ne)
    advance-PusherFits (store_input x i) ne f = (f.0, next_index-ne r v ne, f.2)
    advance-PusherFits (returned b) ne f = tt
