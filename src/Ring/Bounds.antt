-- ===== src/Ring/Bounds.antt =====
-- The representation invariant of LockFreeCircleQueue.h.
use ranking_server.Base.{
  ℕ, ◌+◌, ◌^◌, ◌<◌, ◌≡◌, refl, ◌≢◌, ◌==◌, mod_once, arith, length, set, length-set,
  length-replicate,
}
use ranking_server.Ring.{Ring, construct, push, pop, clear, empty, size, next_index}

pub record IsValid {ℓ} {A : Type ℓ} (r : Ring A) : Type 0 where
  pub storage : length r.buffer ≡ r.max_size
  pub int_size : r.max_size < 2 ^ 31
  pub input_in : r.input < r.max_size
  pub output_in : r.output < r.max_size

-- A queue constructed with a positive `int` is valid and empty.
pub construct-IsValid {ℓ} :
    {A : Type ℓ} (null : A) (n : ℕ)
    → 0 < n
    → n < 2 ^ 31
    → IsValid (construct null n) × (size (construct null n) ≡ 0)
unfolding construct
construct-IsValid null n h k = ground (arith, length-replicate n null)

pub max_size-construct {ℓ} : {A : Type ℓ} (null : A) (n : ℕ) → (construct null n).max_size ≡ n
unfolding construct
max_size-construct null n = refl

module _ {ℓ} {A : Type ℓ} where
  pub push-IsValid : (r : Ring A) (x : A) → IsValid r → IsValid (push r x).1
  unfolding push
  push-IsValid r x v = ground (arith, length-set r.buffer r.input x)

  pub write-IsValid :
      (r : Ring A) (i : ℕ) (x : A) → IsValid r → IsValid (record r { buffer = set r.buffer i x })
  write-IsValid r i x v = ground (arith, length-set r.buffer i x)

  pub pop-IsValid : (null : A) (r : Ring A) → IsValid r → IsValid (pop null r).1
  unfolding pop
  pop-IsValid null r v = ground arith

  pub clear-IsValid : (r : Ring A) → IsValid r → IsValid (clear r)
  unfolding clear
  clear-IsValid r v = ground arith

  pub max_size-push : (r : Ring A) (x : A) → (push r x).1.max_size ≡ r.max_size
  unfolding push
  max_size-push r x = ground arith

  pub max_size-pop : (null : A) (r : Ring A) → (pop null r).1.max_size ≡ r.max_size
  unfolding pop
  max_size-pop null r = ground arith

  -- Different indices have different successors.
  pub next_index-ne :
      (r : Ring A) → IsValid r → r.output ≢ r.input → next_index r r.input ≢ next_index r r.output
  next_index-ne r v ne =
      ground (arith, mod_once (r.input + 1) r.max_size, mod_once (r.output + 1) r.max_size)

  pub publish-IsValid :
      (r : Ring A) → IsValid r → IsValid (record r { input = next_index r r.input })
  publish-IsValid r v = ground arith

  pub advance-IsValid :
      (r : Ring A) → IsValid r → IsValid (record r { output = next_index r r.output })
  advance-IsValid r v = ground arith

  -- `size()` is at most `capacity() - 1`: one cell always stays free.
  pub size-lt : (r : Ring A) → IsValid r → size r < r.max_size
  size-lt r v = ground arith

  -- `empty()` holds exactly when `size()` is zero.
  pub empty-size : (r : Ring A) → IsValid r → empty r ≡ (size r == 0)
  empty-size r v = ground arith

  -- No `int` sum of the class reaches 2 ^ 31, and each index that is written or read is in the
  -- storage.
  pub in_bounds :
      (r : Ring A)
      → IsValid r
      → (r.input + 1 < 2 ^ 31)
        × (r.output + 1 < 2 ^ 31)
        × (r.input < length r.buffer)
        × (r.output < length r.buffer)
  in_bounds r v = omega arith
