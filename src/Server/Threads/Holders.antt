-- ===== src/Server/Threads/Holders.antt =====
-- What each of the session threads of Session.cpp holds.
use ranking_server.Base.{
  ℕ, zero, suc, ◌+◌, ◌≤◌, ◌≡◌, ◌≢◌, refl, ap, subst, List, [], ◌∷◌, some, arith, get_elem?, set,
  replicate,
}
use ranking_server.Network.Ownership.{count}
use ranking_server.Server.Threads.{Program, stop}
use ranking_server.Server.Threads.Typed.{Uses}

-- Each thread uses what it holds.
abbrev pub AllUse : {W : Type 0} → List (List ℕ) → List (Program W) → Type 0
AllUse [] [] = Unit {0}
AllUse (held ∷ helds) (p ∷ ps) = Uses held p × AllUse helds ps
AllUse _ _ = 1 ≤ 0

-- How often the threads hold a structure.
abbrev pub total : ℕ → List (List ℕ) → ℕ
total p [] = 0
total p (held ∷ helds) = count p held + total p helds

module _ {W : Type 0} where
  pub AllUse-get :
      (helds : List (List ℕ)) (ps : List (Program W)) (i : ℕ) (p : Program W)
      → AllUse helds ps
      → get_elem? ps i ≡ some p
      → (held : List ℕ) × (get_elem? helds i ≡ some held) × Uses held p
  AllUse-get [] [] i p u e = cc
  AllUse-get [] (q ∷ ps) i p u e = absurd (omega arith)
  AllUse-get (held ∷ helds) [] i p u e = absurd (omega arith)
  AllUse-get (held ∷ helds) (q ∷ ps) zero p u e =
      let same : q ≡ p = cc in (held, refl, subst (Uses held) same u.0)
  AllUse-get (held ∷ helds) (q ∷ ps) (suc i) p u e = AllUse-get helds ps i p u.1 e

  pub AllUse-set :
      (helds : List (List ℕ)) (ps : List (Program W)) (i : ℕ) (held : List ℕ) (p : Program W)
      → AllUse helds ps
      → Uses held p
      → AllUse (set helds i held) (set ps i p)
  AllUse-set [] [] i held p u h = tt
  AllUse-set [] (q ∷ ps) i held p u h = absurd (omega arith)
  AllUse-set (x ∷ helds) [] i held p u h = absurd (omega arith)
  AllUse-set (x ∷ helds) (q ∷ ps) zero held p u h = (h, u.1)
  AllUse-set (x ∷ helds) (q ∷ ps) (suc i) held p u h = (u.0, AllUse-set helds ps i held p u.1 h)

pub AllUse-idle : (W : Type 0) (k : ℕ) → AllUse {W = W} (replicate k []) (replicate k stop)
AllUse-idle W zero = tt
AllUse-idle W (suc k) = (tt, AllUse-idle W k)

pub total-set :
    (p i : ℕ) (helds : List (List ℕ)) (held held' : List ℕ)
    → get_elem? helds i ≡ some held
    → total p (set helds i held') + count p held ≡ total p helds + count p held'
total-set p i [] held held' e = cc
total-set p zero (x ∷ helds) held held' e =
    let same : x ≡ held = cc in omega (arith, ap (count p) same)
total-set p (suc i) (x ∷ helds) held held' e = omega (arith, total-set p i helds held held' e)

pub total-get :
    (p i : ℕ) (helds : List (List ℕ)) (held : List ℕ)
    → get_elem? helds i ≡ some held
    → count p held ≤ total p helds
total-get p i [] held e = cc
total-get p zero (x ∷ helds) held e = let same : x ≡ held = cc in omega (arith, ap (count p) same)
total-get p (suc i) (x ∷ helds) held e = omega (arith, total-get p i helds held e)

pub total-get_two :
    (p i j : ℕ) (helds : List (List ℕ)) (held held' : List ℕ)
    → get_elem? helds i ≡ some held
    → get_elem? helds j ≡ some held'
    → j ≢ i
    → count p held + count p held' ≤ total p helds
total-get_two p i j [] held held' e f h = cc
total-get_two p zero zero (x ∷ helds) held held' e f h = absurd (h refl)
total-get_two p zero (suc j) (x ∷ helds) held held' e f h =
    let same : x ≡ held = cc in omega (arith, ap (count p) same, total-get p j helds held' f)
total-get_two p (suc i) zero (x ∷ helds) held held' e f h =
    let same : x ≡ held' = cc in omega (arith, ap (count p) same, total-get p i helds held e)
total-get_two p (suc i) (suc j) (x ∷ helds) held held' e f h =
    omega (arith, total-get_two p i j helds held held' e f (λ k. h (ap suc k)))

pub total-idle : (p k : ℕ) → total p (replicate k []) ≡ 0
total-idle p zero = refl
total-idle p (suc k) = omega (arith, total-idle p k)
