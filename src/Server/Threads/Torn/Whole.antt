-- ===== src/Server/Threads/Torn/Whole.antt =====
-- A push or a pop as one access, among those that are made one access to the queue's memory at a time.
use ranking_server.Base.{
  ℕ, zero, suc, ◌≡◌, refl, sym, ap, ◌∙◌, subst, List, [], ◌∷◌, Option, none, some, >>=-eq-some,
  get_elem?, get_elem?-set_self, set, set-set,
}
use ranking_server.Ring.{Ring, push, pop}
use ranking_server.Ring.Atomic.{
  Pusher, load_input, Popper, load_output, popped, push_step, pop_step,
}
use ranking_server.Ring.Atomic.Race.{push_alone, pop_alone, push_alone-push, pop_alone-pop}
use ranking_server.Packet.{CustomOverlapped}
use ranking_server.Network.State.{Network, Answer}
use ranking_server.Server.Threads.{
  Program, stop, fault, pop_queue, look, hand_over, push_queue, find_client, ask, update, access,
  pushed,
}
use ranking_server.Server.Threads.Steps
use ranking_server.Server.Threads.Torn.{
  Threads, Step, Reach, Call, outside, popping, pushing, IsOther,
}

-- Threads of which none is in a call of the queue.
abbrev pub all_outside : {W : Type 0} → List (Program W) → List (Program W × Call)
all_outside [] = []
all_outside (p ∷ ps) = (p, outside) ∷ all_outside ps

abbrev pub torn : {W : Type 0} → Steps.Threads W → Threads W
torn s = record { network = s.network; world = s.world; programs = all_outside s.programs }

get-all_outside :
    {W : Type 0} (ps : List (Program W)) (i : ℕ) (p : Program W)
    → get_elem? ps i ≡ some p
    → get_elem? (all_outside ps) i ≡ some (p, outside)
get-all_outside [] i p e = cc
get-all_outside (q ∷ ps) zero p e = let same : q ≡ p = cc in ap (λ t. some (t, outside)) same
get-all_outside (q ∷ ps) (suc i) p e = get-all_outside ps i p e

set-all_outside :
    {W : Type 0} (ps : List (Program W)) (i : ℕ) (p : Program W)
    → all_outside (set ps i p) ≡ set (all_outside ps) i (p, outside)
set-all_outside [] i p = refl
set-all_outside (q ∷ ps) zero p = refl
set-all_outside (q ∷ ps) (suc i) p = ap (λ l. (q, outside) ∷ l) (set-all_outside ps i p)

module _ {W : Type 0} (ntohl : ℕ → ℕ)
    (callback : Answer → ℕ → ℕ → ℕ → List ℕ → Program W → Program W) (others : W → W → Type 0) where
  -- One thread is in a call, by what it has made of the queue.
  abbrev amid :
      Network → W → List (Program W × Call) → ℕ → Program W × Call → Ring (Option ℕ) → Threads W
  amid n w l i t r = record {
    network = record n { overlapped_queue = r };
    world = w;
    programs = set l i t;
  }

  module _ (n : Network) (w : W) (l : List (Program W × Call)) (i : ℕ) (t₀ : Program W × Call)
      (there : get_elem? l i ≡ some t₀) where
    Step-amid :
        (s : Threads W) (t t' : Program W × Call) (r r' : Ring (Option ℕ))
        → Reach ntohl callback others s (amid n w l i t r)
        → ((e : get_elem? (set l i t) i ≡ some t)
            → Step ntohl callback others (amid n w l i t r) (record {
              network = record n { overlapped_queue = r' };
              world = w;
              programs = set (set l i t) i t';
            }))
        → Reach ntohl callback others s (amid n w l i t' r')
    Step-amid s t t' r r' before st =
        subst
          (λ ps.
            Reach ntohl callback others s
              (record { network = record n { overlapped_queue = r' }; world = w; programs = ps }))
          (set-set l i t t') (Reach.next before (st (get_elem?-set_self l i t t₀ there)))

    pop_alone-Reach :
        (s : Threads W) (k : ℕ → Program W) (m : ℕ) (r : Ring (Option ℕ)) (q : Popper (Option ℕ))
        → Reach ntohl callback others s (amid n w l i (pop_queue k, popping q) r)
        → let (r', q') = pop_alone none m r q in
          Reach ntohl callback others s (amid n w l i (pop_queue k, popping q') r')
    unfolding pop_alone
    pop_alone-Reach s k zero r q before = before
    pop_alone-Reach s k (suc m) r q before =
        let (r', q') = pop_step none r q in
        pop_alone-Reach s k m r' q' (Step-amid s _ _ r r' before λ e. Step.pops i k q e refl)

    push_alone-Reach :
        (s : Threads W) (p : ℕ) (o : CustomOverlapped) (k : Program W) (m : ℕ) (r : Ring (Option ℕ))
        (q : Pusher (Option ℕ))
        → Reach ntohl callback others s (amid n w l i (push_queue p o k, pushing q) r)
        → let (r', q') = push_alone m r q in
          Reach ntohl callback others s (amid n w l i (push_queue p o k, pushing q') r')
    unfolding push_alone
    push_alone-Reach s p o k zero r q before = before
    push_alone-Reach s p o k (suc m) r q before =
        let (r', q') = push_step r q in
        push_alone-Reach s p o k m r' q'
          (Step-amid s _ _ r r' before λ e. Step.pushes i p o k q e refl)

    pop_whole :
        (s : Threads W) (k : ℕ → Program W) (p : ℕ)
        → Reach ntohl callback others s
            (amid n w l i (pop_queue k, popping load_output) n.overlapped_queue)
        → (pop none n.overlapped_queue).0 ≡ some p
        → Reach ntohl callback others s
            (amid n w l i (k p, outside) (pop none n.overlapped_queue).1)
    pop_whole s k p before found =
        let r = n.overlapped_queue in
        let made = pop_alone-Reach s k 4 r load_output before in
        let done =
          subst (λ t. Reach ntohl callback others s (amid n w l i (pop_queue k, popping t.1) t.0))
            (pop_alone-pop none r ∙ ap (λ a. ((pop none r).1, popped a)) found) made in
        Step-amid s _ _ _ _ done λ e. Step.has_popped i k p e refl

    push_whole :
        (s : Threads W) (p : ℕ) (o : CustomOverlapped) (k : Program W)
        → Reach ntohl callback others s
            (amid n w l i (push_queue p o k, pushing (load_input (some p))) n.overlapped_queue)
        → Reach ntohl callback others s
            (amid n w l i (k, outside) (push n.overlapped_queue (some p)).1)
    push_whole s p o k before =
        let r = n.overlapped_queue in
        let made = push_alone-Reach s p o k 4 r (load_input (some p)) before in
        let done =
          subst
            (λ t. Reach ntohl callback others s (amid n w l i (push_queue p o k, pushing t.1) t.0))
            (push_alone-push r (some p)) made in
        Step-amid s _ _ _ _ done λ e. Step.has_pushed i p o k _ e refl

  -- What a thread's access leaves, among threads outside the queue.
  back_outside :
      (s : Threads W) (n : Network) (w : W) (ps : List (Program W)) (i : ℕ) (p : Program W)
      → Reach ntohl callback others s
          (record { network = n; world = w; programs = set (all_outside ps) i (p, outside) })
      → Reach ntohl callback others s
          (record { network = n; world = w; programs = all_outside (set ps i p) })
  back_outside s n w ps i p before =
      subst (λ l. Reach ntohl callback others s (record { network = n; world = w; programs = l }))
        (sym (set-all_outside ps i p)) before

  other_torn :
      (n : Network) (w : W) (ps : List (Program W)) (i : ℕ) (p : Program W)
      (r : Program W × Network × W)
      → IsOther p
      → get_elem? ps i ≡ some p
      → access p (n, w) ≡ some r
      → Reach ntohl callback others
          (torn (record { network = n; world = w; programs = ps }))
          (torn (record { network = r.1; world = r.2; programs = set ps i r.0 }))
  other_torn n w ps i p r other e done =
      back_outside _ r.1 r.2 ps i r.0
        (Reach.next Reach.here (Step.advances i p r (get-all_outside ps i p e) other done refl))

  access-torn :
      (n : Network) (w : W) (ps : List (Program W)) (i : ℕ) (p : Program W)
      (r : Program W × Network × W)
      → get_elem? ps i ≡ some p
      → access p (n, w) ≡ some r
      → Reach ntohl callback others
          (torn (record { network = n; world = w; programs = ps }))
          (torn (record { network = r.1; world = r.2; programs = set ps i r.0 }))
  unfolding access
  access-torn n w ps i (pop_queue k) r e done =
      let (p, found, same) = >>=-eq-some (pop none n.overlapped_queue).0 _ done in
      let start = torn (record { network = n; world = w; programs = ps }) in
      let there = get-all_outside ps i (pop_queue k) e in
      let r' = (pop none n.overlapped_queue).1 in
      let is_r : (k p, record n { overlapped_queue = r' }, w) ≡ r = cc in
      subst
        (λ t.
          Reach ntohl callback others start
            (torn (record { network = t.1; world = t.2; programs = set ps i t.0 })))
        is_r
        (back_outside start (record n { overlapped_queue = r' }) w ps i (k p)
          (pop_whole n w (all_outside ps) i _ there start k p
            (Reach.next Reach.here (Step.calls_pop i k there refl)) found))
  access-torn n w ps i (push_queue p o k) r e done =
      let start = torn (record { network = n; world = w; programs = ps }) in
      let there = get-all_outside ps i (push_queue p o k) e in
      let n' = record n { overlapped = set n.overlapped p o } in
      let is_r : (k, pushed p o n, w) ≡ r = cc in
      subst
        (λ t.
          Reach ntohl callback others start
            (torn (record { network = t.1; world = t.2; programs = set ps i t.0 })))
        is_r
        (back_outside start (pushed p o n) w ps i k (
          push_whole n' w (all_outside ps) i _ there start p o k
            (Reach.next Reach.here (Step.calls_push i p o k there refl))))
  access-torn n w ps i stop r e done = cc
  access-torn n w ps i fault r e done = cc
  access-torn n w ps i (look p k) r e done = other_torn n w ps i (look p k) r tt e done
  access-torn n w ps i (hand_over p o accepted sent k) r e done =
      other_torn n w ps i (hand_over p o accepted sent k) r tt e done
  access-torn n w ps i (find_client id k) r e done =
      other_torn n w ps i (find_client id k) r tt e done
  access-torn n w ps i (ask k) r e done = other_torn n w ps i (ask k) r tt e done
  access-torn n w ps i (update f k) r e done = other_torn n w ps i (update f k) r tt e done

  Reach-trans :
      {s t u : Threads W}
      → Reach ntohl callback others s t
      → Reach ntohl callback others t u
      → Reach ntohl callback others s u
  Reach-trans r Reach.here = r
  Reach-trans r (Reach.next r' last) = Reach.next (Reach-trans r r') last

  Step-torn :
      {s u : Steps.Threads W}
      → Steps.Step ntohl callback others s u
      → Reach ntohl callback others (torn s) (torn u)
  Step-torn {s} (Steps.Step.begins i c a o idle flying found e) = rw e (
      back_outside (torn s) _ s.world s.programs i _ (
        Reach.next Reach.here
          (Step.begins i c a o (get-all_outside s.programs i stop idle) flying found refl)))
  Step-torn {s} (Steps.Step.advances i p r now done e) =
      rw e (access-torn s.network s.world s.programs i p r now done)
  Step-torn (Steps.Step.changes w moved e) =
      rw e (Reach.next Reach.here (Step.changes w moved refl))

  -- Whatever session threads reach with each push and pop as one access, they can reach with push
  -- and pop one access to the queue's memory at a time.
  pub whole_calls :
      (s u : Steps.Threads W)
      → Steps.Reach ntohl callback others s u
      → Reach ntohl callback others (torn s) (torn u)
  whole_calls s _ Steps.Reach.here = Reach.here
  whole_calls s _ (Steps.Reach.next {t} r st) = Reach-trans (whole_calls s t r) (Step-torn st)
