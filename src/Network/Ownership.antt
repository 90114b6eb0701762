-- ===== src/Network/Ownership.antt =====
-- Who has each overlapped structure: the queue of free ones, or the operating system.
use ranking_server.Base.{
  ℕ, ◌+◌, ◌≤◌, ◌≡◌, refl, ap, ◌∙◌, ◌⊎◌, inl, inr, List, [], ◌∷◌, ◌++◌, Option, none, some, Bool,
  true, false, ◌==◌, if◌then◌else◌, arith, Bool-cases, Option-cases, ne_of_==, get_elem?, After,
  After-then,
}
use ranking_server.Ring.{Ring, push, pop, printed, next_index}
use ranking_server.Ring.Bounds.{IsValid, push-IsValid, advance-IsValid}
use ranking_server.Ring.Contents.{
  pop_empty, pop_some, push_full, push_room, printed-advanced, printed-stored,
}
use ranking_server.Packet.{CustomOverlapped, clear}
use ranking_server.Network.State.{Network, take_overlapped, start, give_back}

-- How often a pointer stands in a list.
abbrev pub count : ℕ → List ℕ → ℕ
count p [] = 0
count p (q ∷ qs) = (if q == p then 1 else 0) + count p qs

abbrev pub count_free : ℕ → List (Option ℕ) → ℕ
count_free p [] = 0
count_free p (none ∷ qs) = count_free p qs
count_free p (some q ∷ qs) = (if q == p then 1 else 0) + count_free p qs

-- How often a structure is free or in flight.
abbrev pub owners : ℕ → Network → ℕ
owners p n = count_free p (printed none n.overlapped_queue) + count p n.in_flight

-- What every operation does to the ownership: no structure has an owner more than before.
pub record Keeps (n n' : Network) : Type 0 where
  pub queue : IsValid n'.overlapped_queue
  pub owned : (p : ℕ) → owners p n' ≤ owners p n
  pub clients : n'.client_map ≡ n.client_map

pub Keeps-refl : (n : Network) → IsValid n.overlapped_queue → Keeps n n
Keeps-refl n v = record { queue = v; owned = λ p. omega arith; clients = refl }

pub Keeps-trans : {n m k : Network} → Keeps n m → Keeps m k → Keeps n k
Keeps-trans {n} {m} {k} a b = record {
  queue = b.queue;
  owned = λ p. omega (arith, a.owned p, b.owned p);
  clients = b.clients ∙ a.clients;
}

pub record Taken (n : Network) (pointer : ℕ) (o : CustomOverlapped) (rest : Ring (Option ℕ))
    : Type 0 where
  pub result : take_overlapped n ≡ some (pointer, o, record n { overlapped_queue = rest })
  pub queue : IsValid rest
  pub front : printed none n.overlapped_queue ≡ some pointer ∷ printed none rest

-- What came out of the queue decides the rest.
Taken-of_front :
    (n : Network) (front : Option ℕ) (rest : Ring (Option ℕ))
    → pop none n.overlapped_queue ≡ (front, rest)
    → IsValid rest
    → printed none n.overlapped_queue ≡ front ∷ printed none rest
    → (take_overlapped n ≡ none)
      ⊎ ((pointer : ℕ) × (o : CustomOverlapped) × (r : Ring (Option ℕ)) × Taken n pointer o r)
unfolding take_overlapped
Taken-of_front n none rest e v shown = inl (rw e)
Taken-of_front n (some pointer) rest e v shown =
    elim (Option-cases (get_elem? n.overlapped pointer)) [
      | inl missing ↦ inl (rw (e, missing))
      | inr (o, found) ↦ elim (Option-cases (clear o)) [
        | inl fault ↦ inl (rw (e, found, fault))
        | inr (o', fine) ↦
            inr
              (pointer, o', rest, record { result = rw (e, found, fine); queue = v; front = shown })
      ]
    ]

-- Taking a structure is a fault, or takes the first of the queue.
pub take_cases :
    (n : Network)
    → IsValid n.overlapped_queue
    → (take_overlapped n ≡ none)
      ⊎ ((pointer : ℕ) × (o : CustomOverlapped) × (rest : Ring (Option ℕ)) × Taken n pointer o rest)
unfolding take_overlapped
take_cases n v = elim (Bool-cases (n.overlapped_queue.output == n.overlapped_queue.input)) [
  | inl gone ↦ inl (rw (pop_empty none n.overlapped_queue gone))
  | inr some_left ↦
      Taken-of_front n _ _ (pop_some none n.overlapped_queue some_left)
        (advance-IsValid n.overlapped_queue v)
        (printed-advanced none n.overlapped_queue v (ne_of_== some_left))
]

-- To hand over the structure that was taken gives nobody more than before.
pub start-Keeps :
    {n : Network} {pointer : ℕ} {o : CustomOverlapped} {rest : Ring (Option ℕ)}
    → Taken n pointer o rest
    → (o' : CustomOverlapped) (accepted : Bool)
    → Keeps n (start pointer o' accepted (record n { overlapped_queue = rest }))
unfolding start
start-Keeps t o' true = record {
  queue = t.queue;
  owned = λ p. omega (arith, ap (count_free p) t.front);
  clients = refl;
}
start-Keeps t o' false = record {
  queue = t.queue;
  owned = λ p. omega (arith, ap (count_free p) t.front);
  clients = refl;
}

-- What is on the wire is nobody's.
pub Keeps-wire :
    {n n' : Network} → Keeps n n' → (wire : List (ℕ × List ℕ)) → Keeps n (record n' { wire = wire })
Keeps-wire k wire = record { queue = k.queue; owned = k.owned; clients = k.clients }

-- A thread holds the structure `q`, which `n'` has one owner less of than `n`.
pub record Holds (q : ℕ) (n n' : Network) : Type 0 where
  pub queue : IsValid n'.overlapped_queue
  pub owned : (p : ℕ) → (if q == p then 1 else 0) + owners p n' ≤ owners p n
  pub clients : n'.client_map ≡ n.client_map

pub Holds-Keeps : {q : ℕ} {n m k : Network} → Holds q n m → Keeps m k → Holds q n k
Holds-Keeps h k = record {
  queue = k.queue;
  owned = λ p. omega (arith, h.owned p, k.owned p);
  clients = k.clients ∙ h.clients;
}

-- To drop what is held is no harm to the ownership: nobody has it any more.
pub Holds-drop : {q : ℕ} {n m : Network} → Holds q n m → Keeps n m
Holds-drop h = record {
  queue = h.queue;
  owned = λ p. omega (arith, h.owned p);
  clients = h.clients;
}

count_free-append :
    (p : ℕ) (xs ys : List (Option ℕ)) → count_free p (xs ++ ys) ≡ count_free p xs + count_free p ys
count_free-append p [] ys = omega arith
count_free-append p (none ∷ xs) ys = count_free-append p xs ys
count_free-append p (some q ∷ xs) ys = omega (arith, count_free-append p xs ys)

pub count_free-push :
    (q p : ℕ) (r : Ring (Option ℕ))
    → IsValid r
    → count_free p (printed none (push r (some q)).1)
      ≤ (if q == p then 1 else 0) + count_free p (printed none r)
count_free-push q p r v = elim (Bool-cases (next_index r r.input == r.output)) [
  | inl full ↦ rw (push_full r (some q) full) (omega arith)
  | inr room ↦ rw (push_room r (some q) room) (
      omega (
        arith,
        ap (count_free p) (printed-stored none r (some q) v (ne_of_== room)),
        count_free-append p (printed none r) (some q ∷ []),
      ))
]

-- The thread gives back what it holds.
pub give_back-Keeps : {q : ℕ} {n m : Network} → Holds q n m → After (Keeps n) (give_back q m)
unfolding give_back
give_back-Keeps {q} {n} {m} h = After-then _ (get_elem? m.overlapped q) _ λ o.
    After-then _ (clear o) _ λ o'. record {
      queue = push-IsValid m.overlapped_queue (some q) h.queue;
      owned = λ p. omega (arith, count_free-push q p m.overlapped_queue h.queue, h.owned p);
      clients = h.clients;
    }
