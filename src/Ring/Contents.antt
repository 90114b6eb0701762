-- ===== src/Ring/Contents.antt =====
-- What `print` of LockFreeCircleQueue.h shows, which is the content of the queue, under each store.
use native.Mathlib.Nat.{mod-add-mod, mod-eq_of_lt, add-zero}
use ranking_server.Base.{
  ℕ, zero, suc, ◌+◌, ◌%◌, ◌<◌, ◌≡◌, ◌≢◌, refl, sym, ap, ap₂, ◌∙◌, List, [], ◌∷◌, ◌++◌, true, false,
  ◌==◌, arith, length, set, get_or, get_or-set_self, get_or-set_ne, mod_once,
}
use ranking_server.Ring.{Ring, push, pop, size, next_index, printed, printed_from}
use ranking_server.Ring.Bounds.{IsValid, size-lt, in_bounds, write-IsValid}

module _ {ℓ} {A : Type ℓ} where
  pub push_full :
      (r : Ring A) (x : A) → (next_index r r.input == r.output) ≡ true → push r x ≡ (false, r)
  unfolding push
  push_full r x e = rw e

  pub push_room :
      (r : Ring A) (x : A)
      → (next_index r r.input == r.output) ≡ false
      → push r x
        ≡ (true, record r { buffer = set r.buffer r.input x; input = next_index r r.input })
  unfolding push
  push_room r x e = rw e

  pub pop_empty : (null : A) (r : Ring A) → (r.output == r.input) ≡ true → pop null r ≡ (null, r)
  unfolding pop
  pop_empty null r e = rw e

  pub pop_some :
      (null : A) (r : Ring A)
      → (r.output == r.input) ≡ false
      → pop null r ≡ (get_or r.buffer r.output null, record r { output = next_index r r.output })
  unfolding pop
  pop_some null r e = rw e

module _ {ℓ} {A : Type ℓ} (null : A) where
  pub length-printed_from : (b : List A) (m o i n : ℕ) → length (printed_from null b m o i n) ≡ n
  length-printed_from b m o i zero = refl
  length-printed_from b m o i (suc n) = ap suc (length-printed_from b m o (i + 1) n)

  -- `print` writes out `size()` items.
  pub length-printed : (r : Ring A) → length (printed null r) ≡ size r
  length-printed r = length-printed_from r.buffer r.max_size r.output 0 (size r)

  -- To start one cell later is to count the rounds from one.
  printed_from-next :
      (b : List A) (m o i n : ℕ)
      → printed_from null b m ((o + 1) % m) i n ≡ printed_from null b m o (i + 1) n
  printed_from-next b m o i zero = refl
  printed_from-next b m o i (suc n) =
      ap₂ ◌∷◌ (ap (λ k. get_or b k null) (mod-add-mod (o + 1) m i ∙ ap (λ k. k % m) (omega arith)))
        (printed_from-next b m o (i + 1) n)

  -- Fewer than `m` steps round the storage do not come back.
  around-ne : (m o i k : ℕ) → o < m → i < k → k < m → (o + k) % m ≢ (o + i) % m
  around-ne m o i k ho hi hk =
      ground (arith, mod_once (o + k) m (omega arith), mod_once (o + i) m (omega arith))

  -- Writing the cell behind the items leaves the items.
  printed_from-set :
      (b : List A) (m o i n j k : ℕ) (x : A)
      → o < m
      → i + n ≡ j
      → j < m
      → k ≡ (o + j) % m
      → printed_from null (set b k x) m o i n ≡ printed_from null b m o i n
  printed_from-set b m o i zero j k x ho hj hm e = refl
  printed_from-set b m o i (suc n) j k x ho hj hm e =
      ap₂ ◌∷◌ (get_or-set_ne b k _ x null (rw e (around-ne m o i j ho (omega arith) hm)))
        (printed_from-set b m o (i + 1) n j k x ho (omega arith) hm e)

  -- One more round shows the cell behind the items.
  printed_from-end :
      (b : List A) (m o i n : ℕ)
      → printed_from null b m o i (suc n)
        ≡ printed_from null b m o i n ++ (get_or b ((o + (i + n)) % m) null ∷ [])
  printed_from-end b m o i zero = ap (λ j. get_or b ((o + j) % m) null ∷ []) (sym (add-zero i))
  printed_from-end b m o i (suc n) =
      ap (λ l. get_or b ((o + i) % m) null ∷ l)
        (printed_from-end b m o (i + 1) n
          ∙ ap (λ j. printed_from null b m o (i + 1) n ++ (get_or b ((o + j) % m) null ∷ []))
              (omega arith))

  -- `mInputIndex` is `size()` cells behind `mOutputIndex`.
  input-eq : (r : Ring A) → IsValid r → r.input ≡ (r.output + (0 + size r)) % r.max_size
  input-eq r v = ground (arith, mod_once (r.output + (0 + size r)) r.max_size)

  -- The test of `push` finds the queue full exactly when `capacity() - 1` items are in it.
  pub full-size :
      (r : Ring A) → IsValid r → (next_index r r.input == r.output) ≡ (size r + 1 == r.max_size)
  full-size r v = ground (arith, mod_once (r.input + 1) r.max_size)

  size-stored :
      (r : Ring A) (b : List A)
      → IsValid r
      → next_index r r.input ≢ r.output
      → size (record r { buffer = b; input = next_index r r.input }) ≡ suc (size r)
  size-stored r b v ne = ground (arith, mod_once (r.input + 1) r.max_size)

  size-advanced :
      (r : Ring A)
      → IsValid r
      → r.output ≢ r.input
      → size r ≡ suc (size (record r { output = next_index r r.output }))
  size-advanced r v ne = ground (arith, mod_once (r.output + 1) r.max_size)

  size-empty : (r : Ring A) → (r.output == r.input) ≡ true → size r ≡ 0
  size-empty r e = ground arith

  pub printed-empty : (r : Ring A) → (r.output == r.input) ≡ true → printed null r ≡ []
  printed-empty r e = rw (size-empty r e)

  -- The store to the free cell shows nowhere.
  pub printed-written :
      (r : Ring A) (x : A)
      → IsValid r
      → printed null (record r { buffer = set r.buffer r.input x }) ≡ printed null r
  printed-written r x v =
      printed_from-set r.buffer r.max_size r.output 0 (size r) (0 + size r) r.input x v.output_in
        refl (omega (arith, size-lt r v)) (input-eq r v)

  -- The store to `mInputIndex` publishes that cell.
  pub printed-published :
      (r : Ring A)
      → IsValid r
      → next_index r r.input ≢ r.output
      → printed null (record r { input = next_index r r.input })
        ≡ printed null r ++ (get_or r.buffer r.input null ∷ [])
  printed-published r v ne =
      ap (printed_from null r.buffer r.max_size r.output 0) (size-stored r r.buffer v ne)
      ∙ printed_from-end r.buffer r.max_size r.output 0 (size r)
      ∙ ap (λ k. printed null r ++ (get_or r.buffer k null ∷ [])) (sym (input-eq r v))

  -- What the two stores of `push` do to the content, where there is room.
  pub printed-stored :
      (r : Ring A) (x : A)
      → IsValid r
      → next_index r r.input ≢ r.output
      → printed null (record r { buffer = set r.buffer r.input x; input = next_index r r.input })
        ≡ printed null r ++ (x ∷ [])
  printed-stored r x v ne =
      printed-published (record r { buffer = set r.buffer r.input x }) (write-IsValid r r.input x v)
        ne
      ∙ ap₂ (λ l a. l ++ (a ∷ [])) (printed-written r x v)
          (get_or-set_self r.buffer r.input x null (in_bounds r v).2)

  -- What the store of `pop` does to the content, where there is any.
  pub printed-advanced :
      (r : Ring A)
      → IsValid r
      → r.output ≢ r.input
      → printed null r
        ≡ get_or r.buffer r.output null ∷ printed null (record r { output = next_index r r.output })
  printed-advanced r v ne =
      let n = size (record r { output = next_index r r.output }) in
      ap (printed_from null r.buffer r.max_size r.output 0) (size-advanced r v ne)
      ∙ ap₂ ◌∷◌
          (ap (λ k. get_or r.buffer k null)
            (ap (λ k. k % r.max_size) (add-zero r.output) ∙ mod-eq_of_lt v.output_in))
          (sym (printed_from-next r.buffer r.max_size r.output 0 n))
