-- ===== src/Outside/Redis.antt =====
-- The Redis commands that DatabaseWorker.cpp sends through hiredis.
use ranking_server.Base.{ℕ, ◌≡◌, ◌≢◌, ◌≤◌, ◌<◌, List}

-- What `redisCommand` returns: a null pointer, a string reply, or a reply of another type.
pub data Reply : Type 0 where
  no_reply : Reply
  string : List ℕ → Reply
  other : Reply

-- What SCAN returns: the next cursor and the keys.
pub data ScanReply : Type 0 where
  no_scan : ScanReply
  batch : ℕ → List (List ℕ) → ScanReply

-- `elapse` lets time pass, in seconds. `accepts` says whether the server takes the next command.
pub record Redis : Type 1 where
  pub Store : Type 0
  pub accepts : Store → List ℕ → Type 0
  pub set : Store → List ℕ → List ℕ → ℕ → Store
  pub get : Store → List ℕ → Reply
  pub scan : Store → ℕ → List ℕ → ScanReply
  pub elapse : ℕ → Store → Store
  pub get-set_live :
      (s : Store) (k v : List ℕ) (ttl t : ℕ)
      → accepts s k
      → t < ttl
      → get (elapse t (set s k v ttl)) k ≡ string v
  pub get-set_expired :
      (s : Store) (k v : List ℕ) (ttl t : ℕ)
      → accepts s k
      → ttl ≤ t
      → get (elapse t (set s k v ttl)) k ≡ other
  pub get-set_ne : (s : Store) (k j v : List ℕ) (ttl : ℕ) → k ≢ j → get (set s k v ttl) j ≡ get s j
  pub get-elapse-set_ne :
      (s : Store) (k j v : List ℕ) (ttl t : ℕ)
      → k ≢ j
      → get (elapse t (set s k v ttl)) j ≡ get (elapse t s) j
