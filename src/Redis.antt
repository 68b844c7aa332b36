-- ===== src/Redis.antt =====
-- The commands of RedisClient (common/database/redis/redis_mgr.hpp) that the Gateway calls. The server
-- behind them is not part of the repository, so they are an interface: what a successful command
-- does to the hashes, sets and strings. A command that throws says nothing about the state.
pub mod Memory
pub mod Texts
pub mod Clock
use my_chat.Json.{Bytes}
use my_chat.Prelude.{
  ℕ, Bool, true, false, ◌&&◌, ◌≡◌, ◌↔◌, Option, none, some, List, IsIn, bytes_comparable, ◌==◌,
  if◌then◌else◌, length,
}

-- What the server holds under its keys.
pub record Views (Db : Type 0) : Type 0 where
  pub hash : Bytes → Bytes → Db → Option Bytes
  pub member : Bytes → Bytes → Db → Bool

-- The state after a command, as the changed entries and all others.
abbrev pub SetsField : (Db : Type 0) → Views Db → Bytes → Bytes → Option Bytes → Db → Db → Type 0
SetsField Db v key field value d d' =
    ((k f : Bytes) → v.hash k f d' ≡ (if (k == key) && (f == field) then value else v.hash k f d))
    × ((k x : Bytes) → v.member k x d' ≡ v.member k x d)

abbrev pub SetsMember : (Db : Type 0) → Views Db → Bytes → Bytes → Bool → Db → Db → Type 0
SetsMember Db v key x is_in d d' =
    ((k f : Bytes) → v.hash k f d' ≡ v.hash k f d)
    × ((k y : Bytes) → v.member k y d' ≡ (if (k == key) && (y == x) then is_in else v.member k y d))

abbrev pub Clears : (Db : Type 0) → Views Db → Bytes → Db → Db → Type 0
Clears Db v key d d' =
    ((k f : Bytes) → v.hash k f d' ≡ (if k == key then none else v.hash k f d))
    × ((k x : Bytes) → v.member k x d' ≡ (if k == key then false else v.member k x d))

-- A command gives `false` where it throws; a read gives `none`.
pub record Redis : Type 1 where
  pub Db : Type 0
  pub views : Views Db
  pub hset : Bytes → Bytes → Bytes → Db → Bool × Db
  pub hdel : Bytes → Bytes → Db → Bool × Db
  pub sadd : Bytes → Bytes → Db → Bool × Db
  pub srem : Bytes → Bytes → Db → Bool × Db
  pub del : Bytes → Db → Bool × Db
  pub hget : Bytes → Bytes → Db → Option (Option Bytes)
  pub hgetall : Bytes → Db → Option (List (Bytes × Bytes))
  pub smembers : Bytes → Db → Option (List Bytes)
  pub scard : Bytes → Db → Option ℕ
  pub hset_lem :
      (k f v : Bytes) (d : Db)
      → (hset k f v d).0 ≡ true
      → SetsField Db views k f (some v) d (hset k f v d).1
  pub hdel_lem :
      (k f : Bytes) (d : Db) → (hdel k f d).0 ≡ true → SetsField Db views k f none d (hdel k f d).1
  pub sadd_lem :
      (k x : Bytes) (d : Db) → (sadd k x d).0 ≡ true → SetsMember Db views k x true d (sadd k x d).1
  pub srem_lem :
      (k x : Bytes) (d : Db)
      → (srem k x d).0 ≡ true
      → SetsMember Db views k x false d (srem k x d).1
  pub del_lem : (k : Bytes) (d : Db) → (del k d).0 ≡ true → Clears Db views k d (del k d).1
  pub hget_lem :
      (k f : Bytes) (d : Db) (o : Option Bytes) → hget k f d ≡ some o → o ≡ views.hash k f d
  -- in the order in which the map iterates
  pub hgetall_lem :
      (k : Bytes) (d : Db) (entries : List (Bytes × Bytes))
      → hgetall k d ≡ some entries
      → (f v : Bytes) → IsIn (f, v) entries ↔ (views.hash k f d ≡ some v)
  pub smembers_lem :
      (k : Bytes) (d : Db) (xs : List Bytes)
      → smembers k d ≡ some xs
      → (x : Bytes) → IsIn x xs ↔ (views.member k x d ≡ true)
  pub scard_lem :
      (k : Bytes) (d : Db) (xs : List Bytes) (n : ℕ)
      → smembers k d ≡ some xs
      → scard k d ≡ some n
      → n ≡ length xs

-- The server is up: no command throws.
pub record Answers (redis : Redis) : Type 0 where
  pub hset_ok : (k f v : Bytes) (d : redis.Db) → (redis.hset k f v d).0 ≡ true
  pub hdel_ok : (k f : Bytes) (d : redis.Db) → (redis.hdel k f d).0 ≡ true
  pub sadd_ok : (k x : Bytes) (d : redis.Db) → (redis.sadd k x d).0 ≡ true
  pub srem_ok : (k x : Bytes) (d : redis.Db) → (redis.srem k x d).0 ≡ true
  pub del_ok : (k : Bytes) (d : redis.Db) → (redis.del k d).0 ≡ true
  pub hget_ok : (k f : Bytes) (d : redis.Db) → (o : Option Bytes) × (redis.hget k f d ≡ some o)
  pub hgetall_ok :
      (k : Bytes) (d : redis.Db)
      → (entries : List (Bytes × Bytes)) × (redis.hgetall k d ≡ some entries)
  pub smembers_ok : (k : Bytes) (d : redis.Db) → (xs : List Bytes) × (redis.smembers k d ≡ some xs)
  pub scard_ok : (k : Bytes) (d : redis.Db) → (n : ℕ) × (redis.scard k d ≡ some n)
