-- ===== src/Base/Bytes.antt =====
-- Arrays of bytes with `memset` and `memcpy`, and 32-bit words in little-endian order, the order of
-- the x86 machines that the program is built for.
use Prim.Native.Nat.{ℕ, ◌+◌, ◌*◌, ◌/◌, ◌%◌, ◌^◌, ◌<◌, ◌≤◌}
use mathlib.Core.Path.{◌≡◌, refl, subst}
use mathlib.Core.List.{List, [], ◌∷◌, ◌++◌}
use mathlib.Core.Option.{Option, none, some}
use native.Mathlib.Omega.{arith}
use ranking_server.Base.Tests.{leb, if◌then◌else◌, ◌==◌, ==_of_ne}
use mathlib.Core.Logic.{◌≢◌}
use ranking_server.Base.Lists.{
  length, take, drop, replicate, length-append, length-replicate, length-drop, length-take_le,
  take-append, drop-append,
}

-- `memset(cells, 0, n)`: `none` if it would write outside the array.
abbrev pub fill_zero : ℕ → List ℕ → Option (List ℕ)
fill_zero n cells = if leb n (length cells) then some (replicate n 0 ++ drop n cells) else none

-- `memcpy(cells, source, n)`: `none` if it would read or write outside an array.
abbrev pub copy_in : List ℕ → ℕ → List ℕ → Option (List ℕ)
copy_in source n cells =
    if leb n (length cells)
    then if leb n (length source) then some (take n source ++ drop n cells) else none
    else none

pub fill_zero-some :
    (n : ℕ) (cells : List ℕ)
    → n ≤ length cells
    → fill_zero n cells ≡ some (replicate n 0 ++ drop n cells)
fill_zero-some n cells h = ground arith

pub fill_zero-none : (n : ℕ) (cells : List ℕ) → length cells < n → fill_zero n cells ≡ none
fill_zero-none n cells h = ground arith

pub copy_in-some :
    (source : List ℕ) (n : ℕ) (cells : List ℕ)
    → n ≤ length cells
    → n ≤ length source
    → copy_in source n cells ≡ some (take n source ++ drop n cells)
copy_in-some source n cells h k = ground arith

pub copy_in-none :
    (source : List ℕ) (n : ℕ) (cells : List ℕ) → length source < n → copy_in source n cells ≡ none
copy_in-none source n cells h = ground arith

pub length-zeroed :
    (n : ℕ) (cells : List ℕ)
    → n ≤ length cells
    → length (replicate n 0 ++ drop n cells) ≡ length cells
length-zeroed n cells h = omega (
  arith,
  length-append (replicate n 0) (drop n cells),
  length-replicate n (let z : ℕ = 0 in z),
  length-drop n cells,
)

pub length-copied :
    (source : List ℕ) (n : ℕ) (cells : List ℕ)
    → n ≤ length cells
    → n ≤ length source
    → length (take n source ++ drop n cells) ≡ length cells
length-copied source n cells h k = omega (
  arith,
  length-append (take n source) (drop n cells),
  length-take_le n source k,
  length-drop n cells,
)

-- What lies behind the zeroed cells is what lay there before.
pub drop-zeroed : (n : ℕ) (cells : List ℕ) → drop n (replicate n 0 ++ drop n cells) ≡ drop n cells
drop-zeroed n cells =
    subst (λ k. drop k (replicate n 0 ++ drop n cells) ≡ drop n cells) (length-replicate n 0)
      (drop-append (replicate n 0) (drop n cells))

-- The cells that were copied are those of the source.
pub take-copied :
    (source : List ℕ) (n : ℕ) (cells : List ℕ)
    → n ≤ length source
    → take n (take n source ++ drop n cells) ≡ take n source
take-copied source n cells k =
    subst (λ j. take j (take n source ++ drop n cells) ≡ take n source) (length-take_le n source k)
      (take-append (take n source) (drop n cells))

abbrev pub u32 : ℕ → ℕ
u32 x = x % 2 ^ 32

-- The four bytes of a `uint32_t` in memory, and the word that four bytes hold.
abbrev pub word_bytes : ℕ → List ℕ
word_bytes x = x % 256 ∷ x / 256 % 256 ∷ x / 65536 % 256 ∷ x / 16777216 % 256 ∷ []

abbrev pub bytes_word : ℕ → ℕ → ℕ → ℕ → ℕ
bytes_word a b c d = a + 256 * b + 65536 * c + 16777216 * d

pub bytes_word-word_bytes :
    (x : ℕ)
    → x < 2 ^ 32
    → bytes_word (x % 256) (x / 256 % 256) (x / 65536 % 256) (x / 16777216 % 256) ≡ x
bytes_word-word_bytes x h = omega arith

-- `c_str()` as a C function reads it: up to the first zero byte.
abbrev pub c_str : List ℕ → List ℕ
c_str [] = []
c_str (c ∷ cs) = if c == 0 then [] else c ∷ c_str cs

abbrev pub NoZero : List ℕ → Type 0
NoZero [] = Unit {0}
NoZero (c ∷ cs) = (c ≢ 0) × NoZero cs

pub c_str-NoZero : (cs : List ℕ) → NoZero cs → c_str cs ≡ cs
c_str-NoZero [] h = refl
c_str-NoZero (c ∷ cs) h = rw (==_of_ne h.0, c_str-NoZero cs h.1)

pub NoZero-append : (xs ys : List ℕ) → NoZero xs → NoZero ys → NoZero (xs ++ ys)
NoZero-append [] ys h k = k
NoZero-append (x ∷ xs) ys h k = (h.0, NoZero-append xs ys h.1 k)
