-- ===== src/Outside/Instances/Entries.antt =====
-- Redis as the list of what was set, newest first, with the second in which each entry expires.
use native.Mathlib.Decide.{dec_lt, ℕ_discrete}
use mathlib.Core.Logic.{ite, if_pos, if_neg}
use ranking_server.Base.{ℕ, ◌+◌, ◌≡◌, ◌≢◌, ◌<◌, ◌≤◌, refl, List, [], ◌∷◌, arith}
use ranking_server.Outside.Redis.{Redis, Reply, string, other, batch}

unfoldable pub key_discrete : Discrete (List ℕ)
key_discrete = hlevel ℕ_discrete

abbrev pub Entry : Type 0
Entry = List ℕ × List ℕ × ℕ

abbrev pub Entries : Type 0
Entries = ℕ × List Entry

abbrev pub read_entry : ℕ → List ℕ → List Entry → Reply
read_entry now k [] = other
read_entry now k ((j, v, end) ∷ es) =
    ite (key_discrete j k) (ite (dec_lt now end) (string v) other) (read_entry now k es)

abbrev pub set_entry : Entries → List ℕ → List ℕ → ℕ → Entries
set_entry (now, es) k v ttl = (now, (k, v, now + ttl) ∷ es)

abbrev pub get_entry : Entries → List ℕ → Reply
get_entry (now, es) k = read_entry now k es

abbrev pub later : ℕ → Entries → Entries
later t (now, es) = (now + t, es)

abbrev pub entry_keys : List Entry → List (List ℕ)
entry_keys [] = []
entry_keys ((k, v, end) ∷ es) = k ∷ entry_keys es

pub live :
    (s : Entries) (k v : List ℕ) (ttl t : ℕ)
    → Unit {0}
    → t < ttl
    → get_entry (later t (set_entry s k v ttl)) k ≡ string v
live (now, es) k v ttl t _ h =
    rw (if_pos (key_discrete k k) refl, if_pos (dec_lt (now + t) (now + ttl)) (omega arith))

pub expired :
    (s : Entries) (k v : List ℕ) (ttl t : ℕ)
    → Unit {0}
    → ttl ≤ t
    → get_entry (later t (set_entry s k v ttl)) k ≡ other
expired (now, es) k v ttl t _ h =
    rw (if_pos (key_discrete k k) refl, if_neg (dec_lt (now + t) (now + ttl)) (λ p. omega arith))

pub kept :
    (s : Entries) (k j v : List ℕ) (ttl : ℕ)
    → k ≢ j
    → get_entry (set_entry s k v ttl) j ≡ get_entry s j
kept (now, es) k j v ttl ne = rw (if_neg (key_discrete k j) ne)

pub kept_later :
    (s : Entries) (k j v : List ℕ) (ttl t : ℕ)
    → k ≢ j
    → get_entry (later t (set_entry s k v ttl)) j ≡ get_entry (later t s) j
kept_later (now, es) k j v ttl t ne = rw (if_neg (key_discrete k j) ne)

abbrev pub entry_store : Redis
entry_store = record {
  Store = Entries;
  accepts = λ s k. Unit {0};
  set = set_entry;
  get = get_entry;
  scan = λ s cursor pattern. batch 0 (entry_keys s.1);
  elapse = later;
  get-set_live = live;
  get-set_expired = expired;
  get-set_ne = kept;
  get-elapse-set_ne = kept_later;
}
