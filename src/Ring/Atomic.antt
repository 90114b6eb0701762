-- ===== src/Ring/Atomic.antt =====
-- `push` and `pop` of LockFreeCircleQueue.h one access to shared memory at a time. The accesses are
-- taken to be sequentially consistent.
pub mod Fits
pub mod Spsc
pub mod Race
use ranking_server.Base.{
  ℕ, List, [], ◌∷◌, ◌++◌, Bool, true, false, ◌==◌, if◌then◌else◌, get_or, set,
}
use ranking_server.Ring.{Ring, next_index}

-- A thread in `push(x)`, by the access that it makes next, with its local variables.
pub data Pusher {ℓ} (A : Type ℓ) : Type ℓ where
  load_input : A → Pusher A
  check_full : A → ℕ → Pusher A
  write_cell : A → ℕ → Pusher A
  store_input : A → ℕ → Pusher A
  returned : Bool → Pusher A

-- A thread in `pop()`.
pub data Popper {ℓ} (A : Type ℓ) : Type ℓ where
  load_output : Popper A
  check_empty : ℕ → Popper A
  read_cell : ℕ → Popper A
  store_output : ℕ → A → Popper A
  popped : A → Popper A

module _ {ℓ} {A : Type ℓ} where
  pub push_step : Ring A → Pusher A → Ring A × Pusher A
  push_step r (load_input x) = (r, check_full x r.input)
  push_step r (check_full x i) =
      (r, if next_index r i == r.output then returned false else write_cell x i)
  push_step r (write_cell x i) = (record r { buffer = set r.buffer i x }, store_input x i)
  push_step r (store_input x i) = (record r { input = next_index r i }, returned true)
  push_step r (returned b) = (r, returned b)

  pub pop_step : A → Ring A → Popper A → Ring A × Popper A
  pop_step null r load_output = (r, check_empty r.output)
  pop_step null r (check_empty o) = (r, if o == r.input then popped null else read_cell o)
  pop_step null r (read_cell o) = (r, store_output o (get_or r.buffer o null))
  pop_step null r (store_output o a) = (record r { output = next_index r o }, popped a)
  pop_step null r (popped a) = (r, popped a)

-- One thread that pushes and one that pops, with the items that each has moved so far.
pub record System {ℓ} (A : Type ℓ) : Type ℓ where
  pub ring : Ring A
  pub pusher : Pusher A
  pub popper : Popper A
  pub sent : List A
  pub received : List A

-- What the scheduler lets happen next: a thread whose last call has returned may call again.
pub data Turn {ℓ} (A : Type ℓ) : Type ℓ where
  call_push : A → Turn A
  run_pusher : Turn A
  call_pop : Turn A
  run_popper : Turn A

module _ {ℓ} {A : Type ℓ} where
  abbrev pub begin_push : A → Pusher A → Pusher A
  begin_push x (returned b) = load_input x
  begin_push x p = p

  abbrev pub begin_pop : Popper A → Popper A
  begin_pop (popped a) = load_output
  begin_pop p = p

  -- An item counts as sent by the store to `mInputIndex`, as received by that to `mOutputIndex`.
  abbrev pub sending : Pusher A → List A
  sending (store_input x i) = x ∷ []
  sending p = []

  abbrev pub receiving : Popper A → List A
  receiving (store_output o a) = a ∷ []
  receiving p = []

  pub turn : A → System A → Turn A → System A
  turn null s (call_push x) = record s { pusher = begin_push x s.pusher }
  turn null s call_pop = record s { popper = begin_pop s.popper }
  turn null s run_pusher =
      let (r, p) = push_step s.ring s.pusher in
      record s { ring = r; pusher = p; sent = s.sent ++ sending s.pusher }
  turn null s run_popper =
      let (r, p) = pop_step null s.ring s.popper in
      record s { ring = r; popper = p; received = s.received ++ receiving s.popper }

  pub run : A → System A → List (Turn A) → System A
  run null s [] = s
  run null s (t ∷ ts) = run null (turn null s t) ts
