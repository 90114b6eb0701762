-- ===== src/Ring/Atomic/Spsc.antt =====
-- LockFreeCircleQueue.h under one pushing and one popping thread, over every interleaving.
use ranking_server.Base.{
  ℕ, ◌^◌, ◌<◌, ◌≡◌, ◌≢◌, refl, sym, ap, ap₂, subst, inl, inr, ◌∙◌, List, [], ◌∷◌, ◌++◌, append-nil,
  append_assoc, true, ◌==◌, get_or, get_or-set_self, ne_of_==, Bool-cases,
}
use ranking_server.Ring.{Ring, construct, next_index, printed}
use ranking_server.Ring.Bounds.{
  construct-IsValid, write-IsValid, publish-IsValid, advance-IsValid, in_bounds,
}
use ranking_server.Ring.Contents.{printed-written, printed-published, printed-advanced}
use ranking_server.Ring.Atomic.Fits.{
  system, PusherFits, PopperFits, Inv, write-PopperFits, publish-PopperFits, advance-PusherFits,
}
use ranking_server.Ring.Atomic.{
  Pusher, load_input, check_full, write_cell, store_input, returned, Popper, load_output,
  check_empty, read_cell, store_output, popped, System, Turn, call_push, run_pusher, call_pop,
  run_popper, begin_push, begin_pop, push_step, pop_step, turn, run,
}

module _ {A : Type 0} (null : A) where
  kept :
      (received : List A) (r : Ring A)
      → received ++ printed null r ≡ (received ++ []) ++ printed null r
  kept received r = ap (λ l. l ++ printed null r) (sym (append-nil received))

  -- One access of the pushing thread keeps the invariant.
  run_pusher-Inv :
      (r : Ring A) (p : Pusher A) (q : Popper A) (sent received : List A)
      → Inv null (system r p q sent received)
      → Inv null (turn null (system r p q sent received) run_pusher)
  unfolding turn push_step
  run_pusher-Inv r (load_input x) q sent received inv = record {
    pusher_fits = refl;
    delivered = append-nil sent ∙ inv.delivered;
    valid = inv.valid;
    popper_fits = inv.popper_fits;
  }
  run_pusher-Inv r (check_full x i) q sent received inv =
      elim (Bool-cases (next_index r i == r.output)) [
        | inl full ↦ rw full (record {
          valid = inv.valid;
          pusher_fits = tt;
          popper_fits = inv.popper_fits;
          delivered = append-nil sent ∙ inv.delivered;
        })
        | inr room ↦ rw room (record {
          valid = inv.valid;
          pusher_fits = (
            inv.pusher_fits,
            subst (λ k. next_index r k ≢ r.output) inv.pusher_fits (ne_of_== room),
          );
          popper_fits = inv.popper_fits;
          delivered = append-nil sent ∙ inv.delivered;
        })
      ]
  run_pusher-Inv r (write_cell x i) q sent received inv = rw inv.pusher_fits.0 (record {
    valid = write-IsValid r r.input x inv.valid;
    pusher_fits = (
      refl,
      inv.pusher_fits.1,
      get_or-set_self r.buffer r.input x null (in_bounds r inv.valid).2,
    );
    popper_fits = write-PopperFits null r inv.valid q x inv.popper_fits;
    delivered =
        append-nil sent
        ∙ inv.delivered
        ∙ ap (λ l. received ++ l) (sym (printed-written null r x inv.valid));
  })
  run_pusher-Inv r (store_input x i) q sent received inv =
      let (here, room, written) = inv.pusher_fits in
      rw here (record {
        valid = publish-IsValid r inv.valid;
        pusher_fits = tt;
        popper_fits = publish-PopperFits null r inv.valid q room inv.popper_fits;
        delivered =
            ap₂ (λ l a. l ++ (a ∷ [])) inv.delivered (sym written)
            ∙ append_assoc received (printed null r) _
            ∙ ap (λ l. received ++ l) (sym (printed-published null r inv.valid room));
      })
  run_pusher-Inv r (returned b) q sent received inv = record {
    pusher_fits = tt;
    delivered = append-nil sent ∙ inv.delivered;
    valid = inv.valid;
    popper_fits = inv.popper_fits;
  }

  -- One access of the popping thread keeps the invariant.
  run_popper-Inv :
      (r : Ring A) (p : Pusher A) (q : Popper A) (sent received : List A)
      → Inv null (system r p q sent received)
      → Inv null (turn null (system r p q sent received) run_popper)
  unfolding turn pop_step
  run_popper-Inv r p load_output sent received inv = record {
    popper_fits = refl;
    delivered = inv.delivered ∙ kept received r;
    valid = inv.valid;
    pusher_fits = inv.pusher_fits;
  }
  run_popper-Inv r p (check_empty o) sent received inv = elim (Bool-cases (o == r.input)) [
    | inl gone ↦ rw gone (record {
      valid = inv.valid;
      pusher_fits = inv.pusher_fits;
      popper_fits = tt;
      delivered = inv.delivered ∙ kept received r;
    })
    | inr some_left ↦ rw some_left (record {
      valid = inv.valid;
      pusher_fits = inv.pusher_fits;
      popper_fits =
          (inv.popper_fits, subst (λ k. k ≢ r.input) inv.popper_fits (ne_of_== some_left));
      delivered = inv.delivered ∙ kept received r;
    })
  ]
  run_popper-Inv r p (read_cell o) sent received inv = record {
    popper_fits =
        (inv.popper_fits.0, inv.popper_fits.1, ap (λ k. get_or r.buffer k null) inv.popper_fits.0);
    delivered = inv.delivered ∙ kept received r;
    valid = inv.valid;
    pusher_fits = inv.pusher_fits;
  }
  run_popper-Inv r p (store_output o a) sent received inv =
      let (here, some_left, read) = inv.popper_fits in
      rw here (record {
        valid = advance-IsValid r inv.valid;
        pusher_fits = advance-PusherFits null r inv.valid p some_left inv.pusher_fits;
        popper_fits = tt;
        delivered =
            inv.delivered
            ∙ ap (λ l. received ++ l) (printed-advanced null r inv.valid some_left)
            ∙ sym (append_assoc received _ _)
            ∙ ap
                (λ b.
                  (received ++ (b ∷ []))
                  ++ printed null (record r { output = next_index r r.output }))
                (sym read);
      })
  run_popper-Inv r p (popped a) sent received inv = record {
    popper_fits = tt;
    delivered = inv.delivered ∙ kept received r;
    valid = inv.valid;
    pusher_fits = inv.pusher_fits;
  }

  begin_push-PusherFits :
      (r : Ring A) (x : A) (p : Pusher A) → PusherFits null r p → PusherFits null r (begin_push x p)
  begin_push-PusherFits r x (returned b) f = tt
  begin_push-PusherFits r x (load_input y) f = f
  begin_push-PusherFits r x (check_full y i) f = f
  begin_push-PusherFits r x (write_cell y i) f = f
  begin_push-PusherFits r x (store_input y i) f = f

  begin_pop-PopperFits :
      (r : Ring A) (q : Popper A) → PopperFits null r q → PopperFits null r (begin_pop q)
  begin_pop-PopperFits r (popped a) f = tt
  begin_pop-PopperFits r load_output f = f
  begin_pop-PopperFits r (check_empty o) f = f
  begin_pop-PopperFits r (read_cell o) f = f
  begin_pop-PopperFits r (store_output o a) f = f

  -- Every turn keeps the invariant.
  pub turn-Inv : (s : System A) (t : Turn A) → Inv null s → Inv null (turn null s t)
  unfolding turn
  turn-Inv s (call_push x) inv = record {
    pusher_fits = begin_push-PusherFits s.ring x s.pusher inv.pusher_fits;
    valid = inv.valid;
    popper_fits = inv.popper_fits;
    delivered = inv.delivered;
  }
  turn-Inv s run_pusher inv = run_pusher-Inv s.ring s.pusher s.popper s.sent s.received inv
  turn-Inv s call_pop inv = record {
    popper_fits = begin_pop-PopperFits s.ring s.popper inv.popper_fits;
    valid = inv.valid;
    pusher_fits = inv.pusher_fits;
    delivered = inv.delivered;
  }
  turn-Inv s run_popper inv = run_popper-Inv s.ring s.pusher s.popper s.sent s.received inv

  pub run-Inv : (ts : List (Turn A)) (s : System A) → Inv null s → Inv null (run null s ts)
  unfolding run
  run-Inv [] s inv = inv
  run-Inv (t ∷ ts) s inv = run-Inv ts (turn null s t) (turn-Inv s t inv)

  -- A queue fresh from `Construct`, with both threads between calls.
  abbrev pub start : ℕ → System A
  start n = record {
    ring = construct null n;
    pusher = returned true;
    popper = popped null;
    sent = [];
    received = [];
  }

  -- From a freshly constructed queue of n cells, 0 < n < 2^31, in whatever order the accesses of one
  -- pushing and one popping thread interleave, the items sent are the items received, in the order
  -- sent, followed by the content of the queue.
  pub run-delivered :
      (n : ℕ) (ts : List (Turn A))
      → 0 < n
      → n < 2 ^ 31
      → let s = run null (start n) ts in s.sent ≡ s.received ++ printed null s.ring
  unfolding construct
  run-delivered n ts h k = (run-Inv ts (start n) start-Inv).delivered
    where
      start-Inv : Inv null (start n)
      start-Inv = record {
        valid = (construct-IsValid null n h k).0;
        pusher_fits = tt;
        popper_fits = tt;
        delivered = refl;
      }
