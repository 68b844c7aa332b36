-- ===== src/Storage.antt =====
-- The object database behind the repositories (odb::database over PostgreSQL), which is not part of
-- the repository: the operations that the repositories call, with the documented behaviour that
-- they rely on. `none` is an odb::exception.
pub mod Memory
pub mod Sorting
pub mod Laws
pub mod Replace
pub mod Paging
use mathlib.Core.List.{Permᴰ}
use my_chat.Prelude.Int.{ℤ, pos, negsuc, ltz}
use my_chat.Prelude.{
  ℕ, Apart, take, ◌≡◌, Bool, true, false, Option, none, some, List, [], ◌∷◌, ◌++◌, map, IsIn,
  select, Comparable, ◌==◌, if◌then◌else◌, ◌>>=◌, ◌>>◌,
}

-- A connection, with what decides whether a statement succeeds. A transaction works on a copy of
-- the state; when it throws before `commit` returns, the state before `begin` is kept (rollback).
pub record Database : Type 1 where
  pub Db : Type 0
  pub begin : Db → Option Db
  pub commit : Db → Option Db

-- What the `#pragma db` lines of a persistent class say.
pub record Schema (Key Row : Type 0) : Type 0 where
  pub key : Row → Key
  -- the row as it is stored under the key that `persist` settles
  pub assign : Key → Row → Row
  -- the unique indexes
  pub conflicts : Row → Row → Bool
  pub key-assign : (k : Key) (r : Row) → key (assign k r) ≡ k

pub data Direction : Type 0 where
  ascending descending : Direction

-- `x` may stand before `y`.
abbrev pub Precedes : {Row : Type 0} → Direction → (Row → ℤ) → Row → Row → Type 0
Precedes ascending time x y = ltz (time y) (time x) ≡ false
Precedes descending time x y = ltz (time x) (time y) ≡ false

module _ {Key Row : Type 0} ⦃c : Comparable Key⦄ (s : Schema Key Row) where
  -- The table after `update`: the row of that key is replaced.
  unfoldable pub replace : Row → List Row → List Row
  replace r rows = map (λ x. if s.key x == s.key r then r else x) rows

  pub record Table (db : Database) : Type 1 where
    -- the rows, oldest first
    pub rows : db.Db → List Row
    pub persist : Row → db.Db → Option (Key × db.Db)
    pub load : Key → db.Db → Option Row
    pub query : (Row → Bool) → db.Db → Option (List Row)
    pub update : Row → db.Db → Option db.Db
    pub rows-begin : (d t : db.Db) → db.begin d ≡ some t → rows t ≡ rows d
    pub rows-commit : (d t : db.Db) → db.commit d ≡ some t → rows t ≡ rows d
    pub rows-persist :
        (r : Row) (d : db.Db) (k : Key) (t : db.Db)
        → persist r d ≡ some (k, t)
        → rows t ≡ rows d ++ s.assign k r ∷ []
    -- primary key and unique indexes
    pub persist_key :
        (r : Row) (d : db.Db) (k : Key) (t : db.Db)
        → persist r d ≡ some (k, t)
        → (x : Row) → IsIn x (rows d)
        → (s.key x == k) ≡ false
    pub persist_unique :
        (r : Row) (d : db.Db) (k : Key) (t : db.Db)
        → persist r d ≡ some (k, t)
        → (x : Row) → IsIn x (rows d)
        → s.conflicts x r ≡ false
    pub load_row :
        (k : Key) (d : db.Db) (r : Row) → load k d ≡ some r → IsIn r (rows d) × (s.key r ≡ k)
    -- the order of a result is not specified
    pub query_rows :
        (p : Row → Bool) (d : db.Db) (rs : List Row)
        → query p d ≡ some rs
        → Permᴰ rs (select p (rows d))
    pub rows-update : (r : Row) (d t : db.Db) → update r d ≡ some t → rows t ≡ replace r (rows d)

  -- `erase_query`, where a repository calls it.
  pub record Eraser {db : Database} (table : Table db) : Type 1 where
    pub erase : (Row → Bool) → db.Db → Option db.Db
    pub rows-erase :
        (p : Row → Bool) (d t : db.Db)
        → erase p d ≡ some t
        → table.rows t ≡ select (λ x. if p x then false else true) (table.rows d)

  -- `query` with "ORDER BY time", and with "ORDER BY time LIMIT n" behind it, which PostgreSQL
  -- refuses for a negative n.
  pub record Sorter {db : Database} (table : Table db) : Type 1 where
    pub sorted : (Row → Bool) → Direction → (Row → ℤ) → db.Db → Option (List Row)
    pub limited : (Row → Bool) → Direction → (Row → ℤ) → ℤ → db.Db → Option (List Row)
    pub sorted_rows :
        (p : Row → Bool) (dir : Direction) (time : Row → ℤ) (d : db.Db) (rs : List Row)
        → sorted p dir time d ≡ some rs
        → Permᴰ rs (select p (table.rows d)) × Apart (Precedes dir time) rs
    pub limited_rows :
        (p : Row → Bool) (dir : Direction) (time : Row → ℤ) (n : ℕ) (d : db.Db) (rs : List Row)
        → limited p dir time (pos n) d ≡ some rs
        → (all : List Row) × Permᴰ all (select p (table.rows d))
          × Apart (Precedes dir time) all
          × (rs ≡ take n all)
    pub limited-negsuc :
        (p : Row → Bool) (dir : Direction) (time : Row → ℤ) (n : ℕ) (d : db.Db)
        → limited p dir time (negsuc n) d ≡ none

-- A repository method that writes and returns `bool`: its catch block returns false.
abbrev pub attempt : {D : Type 0} → D → Option D → Bool × D
attempt d none = (false, d)
attempt d (some t) = (true, t)

-- The transactions that the repositories are built of: `begin`, the statements, `commit`.
module _ {Key Row : Type 0} ⦃c : Comparable Key⦄ {s : Schema Key Row} {db : Database}
    (table : Table s db) where
  open db use {Db, begin, commit}

  unfoldable pub persisted : Row → Db → Option (Key × Db)
  persisted r d = do t ← begin d; (k, t') ← table.persist r t; t'' ← commit t'; some (k, t'')

  unfoldable pub loaded : Key → Db → Option Row
  loaded k d = do t ← begin d; r ← table.load k t; commit t; some r

  unfoldable pub fetched : (Row → Bool) → Db → Option (List Row)
  fetched p d = do t ← begin d; rs ← table.query p t; commit t; some rs

  -- Load a row, change it and update it.
  unfoldable pub updated : Key → (Row → Row) → Db → Option (Row × Db)
  updated k change d = do
    t ← begin d
    r ← table.load k t
    t' ← table.update (change r) t
    t'' ← commit t'
    some (change r, t'')

  -- The methods that return a vector keep the rows they have read when `commit` throws.
  unfoldable pub queried : (Row → Bool) → Db → Option (List Row)
  queried p d = do t ← begin d; table.query p t

  unfoldable pub sorted_by :
      Sorter s table → (Row → Bool) → Direction → (Row → ℤ) → Db → Option (List Row)
  sorted_by sorter p dir time d = do t ← begin d; sorter.sorted p dir time t

  unfoldable pub limited_to :
      Sorter s table → (Row → Bool) → Direction → (Row → ℤ) → ℤ → Db → Option (List Row)
  limited_to sorter p dir time n d = do t ← begin d; sorter.limited p dir time n t

  unfoldable pub erased : Eraser s table → (Row → Bool) → Db → Option Db
  erased eraser p d = do t ← begin d; t' ← eraser.erase p t; commit t'
