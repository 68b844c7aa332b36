-- ===== src/Redis/Texts.antt =====
-- The commands of RedisClient (common/database/redis/redis_mgr.hpp) on texts, with their expiry. The
-- server is not part of the repository, so they are an interface. Times are in nanoseconds since the
-- epoch, for the server and the Gateway alike.
use my_chat.Prelude.{
  ℕ, ◌+◌, ◌*◌, ◌≤◌, Bool, true, ◌≡◌, ◌⊎◌, Option, none, some, bytes_comparable, ◌==◌, if◌then◌else◌,
  ltb, has_value,
}
use my_chat.Prelude.Int.{ℤ}
use my_chat.Json.{Bytes}

abbrev pub second : ℕ
second = 1000000000

-- A command gives `false` where it throws; a read gives `none`.
pub record Texts : Type 1 where
  pub Db : Type 0
  -- the text under a key at a time, if nothing is written before
  pub text_at : Bytes → ℕ → Db → Option Bytes
  pub set : Bytes → Bytes → ℕ → Db → Bool × Db
  pub del : Bytes → ℕ → Db → Bool × Db
  -- in seconds
  pub expire : Bytes → ℕ → ℕ → Db → Bool × Db
  pub sadd : Bytes → Bytes → ℕ → Db → Bool × Db
  pub srem : Bytes → Bytes → ℕ → Db → Bool × Db
  pub get : Bytes → ℕ → Db → Option (Option Bytes)
  pub ttl : Bytes → ℕ → Db → Option ℤ
  pub exists : Bytes → ℕ → Db → Option Bool
  pub text_lem :
      (k : Bytes) (t t' : ℕ) (d : Db)
      → t ≤ t'
      → (text_at k t' d ≡ text_at k t d) ⊎ (text_at k t' d ≡ none)
  pub set_lem :
      (k v : Bytes) (now : ℕ) (d : Db)
      → (set k v now d).0 ≡ true
      → (j : Bytes) (t : ℕ) → now ≤ t
      → text_at j t (set k v now d).1 ≡ (if j == k then some v else text_at j t d)
  pub del_lem :
      (k : Bytes) (now : ℕ) (d : Db)
      → (del k now d).0 ≡ true
      → (j : Bytes) (t : ℕ) → now ≤ t
      → text_at j t (del k now d).1 ≡ (if j == k then none else text_at j t d)
  pub expire_lem :
      (k : Bytes) (seconds now : ℕ) (d : Db)
      → (expire k seconds now d).0 ≡ true
      → (j : Bytes) (t : ℕ) → now ≤ t
      → text_at j t (expire k seconds now d).1 ≡ (
          if j == k
          then (if ltb t (now + seconds * second) then text_at k now d else none)
          else text_at j t d)
  pub sadd_lem :
      (k x : Bytes) (now : ℕ) (d : Db)
      → (sadd k x now d).0 ≡ true
      → (j : Bytes) (t : ℕ) → now ≤ t
      → text_at j t (sadd k x now d).1 ≡ text_at j t d
  pub srem_lem :
      (k x : Bytes) (now : ℕ) (d : Db)
      → (srem k x now d).0 ≡ true
      → (j : Bytes) (t : ℕ) → now ≤ t
      → text_at j t (srem k x now d).1 ≡ text_at j t d
  pub get_lem :
      (k : Bytes) (now : ℕ) (d : Db) (o : Option Bytes) → get k now d ≡ some o → o ≡ text_at k now d
  -- of a key under which only texts are kept
  pub exists_lem :
      (k : Bytes) (now : ℕ) (d : Db) (b : Bool)
      → exists k now d ≡ some b
      → b ≡ has_value (text_at k now d)

-- The server is up: no command throws.
pub record Answers (texts : Texts) : Type 0 where
  pub set_ok : (k v : Bytes) (now : ℕ) (d : texts.Db) → (texts.set k v now d).0 ≡ true
  pub del_ok : (k : Bytes) (now : ℕ) (d : texts.Db) → (texts.del k now d).0 ≡ true
  pub expire_ok : (k : Bytes) (s now : ℕ) (d : texts.Db) → (texts.expire k s now d).0 ≡ true
  pub sadd_ok : (k x : Bytes) (now : ℕ) (d : texts.Db) → (texts.sadd k x now d).0 ≡ true
  pub srem_ok : (k x : Bytes) (now : ℕ) (d : texts.Db) → (texts.srem k x now d).0 ≡ true
  pub get_ok :
      (k : Bytes) (now : ℕ) (d : texts.Db) → (o : Option Bytes) × (texts.get k now d ≡ some o)
  pub ttl_ok : (k : Bytes) (now : ℕ) (d : texts.Db) → (s : ℤ) × (texts.ttl k now d ≡ some s)
  pub exists_ok :
      (k : Bytes) (now : ℕ) (d : texts.Db) → (b : Bool) × (texts.exists k now d ≡ some b)
