-- ===== src/Ring.antt =====
-- RankingServer/include/LockFreeCircleQueue.h, each member function run alone. `Ring/Atomic` has
-- the same functions one atomic access at a time.
pub mod Bounds
pub mod Contents
pub mod Refine
pub mod Atomic
use ranking_server.Base.{
  ℕ, zero, suc, ◌+◌, ◌-◌, ◌%◌, List, [], ◌∷◌, Bool, true, false, ◌==◌, leb, if◌then◌else◌, get_or,
  set, replicate,
}

-- The members of the class. The three numbers are `int`s, whose bounds are in Ring/Bounds.
pub record Ring {ℓ} (A : Type ℓ) : Type ℓ where
  pub max_size : ℕ
  pub input : ℕ
  pub output : ℕ
  pub buffer : List A

-- `(i + 1) % mQueueMaxSize`
abbrev pub next_index {ℓ} : {A : Type ℓ} → Ring A → ℕ → ℕ
next_index r i = (i + 1) % r.max_size

-- A write out of range would change nothing; the invariant rules it out.
pub push {ℓ} : {A : Type ℓ} → Ring A → A → Bool × Ring A
push r x =
    let next = next_index r r.input in
    if next == r.output
    then (false, r)
    else (true, record r { buffer = set r.buffer r.input x; input = next })

module _ {ℓ} {A : Type ℓ} (null : A) where
  -- The constructor and `Construct`. `null` is the value-initialised `T()`; it also stands for what
  -- `new T[queueMaxSize]` leaves in the cells.
  pub construct : ℕ → Ring A
  construct n = record { max_size = n; input = 0; output = 0; buffer = replicate n null }

  -- On the empty queue the result is `T()`.
  pub pop : Ring A → A × Ring A
  pop r =
      if r.output == r.input
      then (null, r)
      else (get_or r.buffer r.output null, record r { output = next_index r r.output })

  pub front : Ring A → A
  front r = get_or r.buffer r.output null

abbrev pub empty {ℓ} : {A : Type ℓ} → Ring A → Bool
empty r = r.input == r.output

abbrev pub size {ℓ} : {A : Type ℓ} → Ring A → ℕ
size r = if leb r.output r.input then r.input - r.output else r.max_size - r.output + r.input

abbrev pub capacity {ℓ} : {A : Type ℓ} → Ring A → ℕ
capacity r = r.max_size

pub clear {ℓ} : {A : Type ℓ} → Ring A → Ring A
clear r = record r { input = 0; output = 0 }

module _ {ℓ} {A : Type ℓ} (null : A) where
  -- The cells that the loop of `print` writes out from round `i` on, `n` rounds before its end.
  abbrev pub printed_from : List A → ℕ → ℕ → ℕ → ℕ → List A
  printed_from buffer m output i zero = []
  printed_from buffer m output i (suc n) =
      get_or buffer ((output + i) % m) null ∷ printed_from buffer m output (i + 1) n

  -- What `print` writes out: `size()` cells from `mOutputIndex` on.
  abbrev pub printed : Ring A → List A
  printed r = printed_from r.buffer r.max_size r.output 0 (size r)
