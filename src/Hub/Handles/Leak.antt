-- ===== src/Hub/Handles/Leak.antt =====
-- The rounds of Hub::Work with the statement handles: they do what the rounds without them do, and the
-- handles grow.
use ranking_server.Base.{
  ℕ, zero, suc, ◌+◌, ◌*◌, ◌≡◌, refl, sym, ◌∙◌, ap, subst, List, [], ◌∷◌, ◌++◌, Option, none, some,
  ◌>>=◌, ◌==◌, codes, c_str, ◌⊎◌, inl, inr, Bool-cases, arith, length, ==_iff,
}
use ranking_server.Outside.Json.{JsonLibrary}
use ranking_server.Outside.Redis.{Redis, Reply, ScanReply, no_reply, string, other, no_scan, batch}
use ranking_server.Outside.Odbc.{Odbc}
use ranking_server.Outside.Calendar.{Calendar}
use ranking_server.Converter.{Codepages}
use ranking_server.Database.{
  stoi, save_score, save_keys, save_scan, score_data_save, ranking_update, ranking_data_load,
  score_table,
}
use ranking_server.Hub.{work_round}
use ranking_server.Hub.Handles.{
  Handles, remove, alloc_statement, free_statement, save_keys_on, save_scan_on, ranking_update_on,
  work_round_on, work_on, work,
}

-- `mHstmt` is the handle allocated last.
abbrev pub IsCurrent : Handles → Type 0
IsCurrent h = (rest : List ℕ) × (h.allocated ≡ h.statement ∷ rest)

-- Both fail, or the second gives what the first gives, with `n` handles.
abbrev pub Agrees : {A : Type 0} → Option A → Option (A × Handles) → ℕ → Type 0
Agrees none none n = Unit
Agrees none (some r) n = ⊥
Agrees (some a) none n = ⊥
Agrees (some a) (some (b, h)) n = (b ≡ a) × IsCurrent h × (length h.allocated ≡ n)

Agrees->>= :
    {A B : Type 0} (m : Option A) (m' : Option (A × Handles)) (f : A → Option B)
    (g : A × Handles → Option (B × Handles)) (n k : ℕ)
    → Agrees m m' n
    → ((a : A) (h : Handles) → IsCurrent h → length h.allocated ≡ n → Agrees (f a) (g (a, h)) k)
    → Agrees (m >>= f) (m' >>= g) k
Agrees->>= none none f g n k r next = tt
Agrees->>= none (some w) f g n k r next = absurd r
Agrees->>= (some a) none f g n k r next = absurd r
Agrees->>= (some a) (some (b, h)) f g n k (e, c, l) next =
    subst (λ x. Agrees (f a) (g (x, h)) k) (sym e) (next a h c l)

Agrees-then :
    {X A : Type 0} (m : Option X) (f : X → Option A) (g : X → Option (A × Handles)) (k : ℕ)
    → ((x : X) → Agrees (f x) (g x) k)
    → Agrees (m >>= f) (m >>= g) k
Agrees-then none f g k next = tt
Agrees-then (some x) f g k next = next x

alloc_statement-IsCurrent :
    (h : Handles)
    → IsCurrent h
    → let h' = alloc_statement (free_statement h) in
      IsCurrent h' × (length h'.allocated ≡ length h.allocated)
unfolding alloc_statement free_statement
alloc_statement-IsCurrent h (rest, e) =
    let kept : remove h.statement h.allocated ≡ rest =
      rw (e, (==_iff h.statement h.statement).1 refl) in
    ((rest, ap (λ l. h.next ∷ l) kept), ap (λ l. suc (length l)) kept ∙ sym (ap length e))

Reply-cases : (r : Reply) → ((t : List ℕ) × (r ≡ string t)) ⊎ ((r ≡ no_reply) ⊎ (r ≡ other))
Reply-cases no_reply = inr (inl refl)
Reply-cases (string t) = inl (t, refl)
Reply-cases other = inr (inr refl)

ScanReply-cases :
    (r : ScanReply) → (r ≡ no_scan) ⊎ ((next : ℕ) × (keys : List (List ℕ)) × (r ≡ batch next keys))
ScanReply-cases no_scan = inl refl
ScanReply-cases (batch next keys) = inr (next, keys, refl)

module _ (js : JsonLibrary) (rd : Redis) (cp : Codepages) (cal : Calendar) (od : Odbc) where
  save_keys-Agrees :
      (s : rd.Store) (keys : List (List ℕ)) (db : od.Db) (h : Handles)
      → IsCurrent h
      → Agrees
          (save_keys js rd cp cal od s keys db)
          (save_keys_on js rd cp cal od s keys (db, h))
          (length h.allocated)
  unfolding save_keys save_keys_on
  save_keys-Agrees s [] db h c = (refl, c, refl)
  save_keys-Agrees s (key ∷ keys) db h c = elim (Reply-cases (rd.get s (c_str key))) [
    | inl (reply, e) ↦
        let (c', l) = alloc_statement-IsCurrent h c in
        let h' = alloc_statement (free_statement h) in
        elim (Bool-cases (od.prepares db)) [
          | inl ok ↦
              rw (e, save_keys, save_keys_on, ok, sym l)
                (Agrees-then (save_score js rd cp cal od reply db) _ _ _
                  λ db'. save_keys-Agrees s keys db' h' c')
          | inr failed ↦ rw (e, save_keys, save_keys_on, failed) (refl, c', l)
        ]
    | inr (inl e) ↦ rw (e, save_keys, save_keys_on) (save_keys-Agrees s keys db h c)
    | inr (inr e) ↦ rw (e, save_keys, save_keys_on) (save_keys-Agrees s keys db h c)
  ]

  save_scan-Agrees :
      (s : rd.Store) (fuel cursor : ℕ) (db : od.Db) (h : Handles)
      → IsCurrent h
      → Agrees
          (save_scan js rd cp cal od s fuel cursor db)
          (save_scan_on js rd cp cal od s fuel cursor (db, h))
          (length h.allocated)
  unfolding save_scan save_scan_on
  save_scan-Agrees s zero cursor db h c = (refl, c, refl)
  save_scan-Agrees s (suc fuel) cursor db h c =
      elim (ScanReply-cases (rd.scan s cursor (codes "table:" ++ (score_table ++ codes ":*")))) [
        | inl e ↦ rw (e, save_scan, save_scan_on) (refl, c, refl)
        | inr (next, keys, e) ↦
            rw (e, save_scan, save_scan_on)
              (Agrees-then (stoi next) _ _ _ λ cursor'.
                Agrees->>= _ _ _ _ _ _ (save_keys-Agrees s keys db h c) λ db' h' c' l.
                  elim (Bool-cases (cursor' == 0)) [
                    | inl last ↦ rw last (refl, c', l)
                    | inr more ↦ rw (more, sym l) (save_scan-Agrees s fuel cursor' db' h' c')
                  ])
      ]

  -- One round makes one handle more.
  work_round-Agrees :
      (fuel interval : ℕ) (db : od.Db) (s : rd.Store) (h : Handles)
      → IsCurrent h
      → Agrees
          (work_round js rd cp cal od fuel interval (db, s))
          (work_round_on js rd cp cal od fuel interval ((db, s), h))
          (length h.allocated + 1)
  unfolding work_round work_round_on score_data_save ranking_update_on alloc_statement
  work_round-Agrees fuel interval db s h c =
      Agrees->>= _ _ _ _ _ _ (save_scan-Agrees (rd.elapse (60 * interval) s) fuel 0 db h c)
        λ (ended, db') h' c' l. elim (Bool-cases ended) [
          | inl ends ↦ rw ends (
              Agrees-then
                (ranking_data_load js rd cp cal od (ranking_update js rd cp cal od db')
                  (rd.elapse (60 * interval) s))
                _ _ _ λ s''. (refl, (h'.allocated, refl), omega (arith, l)))
          | inr stuck ↦ rw stuck tt
        ]

  -- k rounds of Hub::Work with the ODBC statement handles, from handles of which the newest is
  -- mHstmt, fault exactly where the rounds without handles do, and otherwise leave the same database
  -- and cache, with k more statement handles allocated than before.
  pub work_leaks :
      (k fuel interval : ℕ) (w : od.Db × rd.Store) (h : Handles)
      → IsCurrent h
      → Agrees
          (work js rd cp cal od k fuel interval w)
          (work_on js rd cp cal od k fuel interval (w, h))
          (length h.allocated + k)
  unfolding work work_on
  work_leaks zero fuel interval w h c = (refl, c, omega arith)
  work_leaks (suc k) fuel interval w h c =
      Agrees->>= _ _ _ _ _ _ (work_round-Agrees fuel interval w.0 w.1 h c) λ w' h' c' l.
        let more : length h'.allocated + k ≡ length h.allocated + suc k = omega (arith, l) in
        rw (sym more) (work_leaks k fuel interval w' h' c')
