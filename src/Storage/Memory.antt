-- ===== src/Storage/Memory.antt =====
-- A database in memory that meets the assumptions of Storage: lists of rows, and keys that are
-- given or count up from 1. It shows that the assumptions can hold, and the examples run on it.
use Prim.Native.Nat.{max}
use mathlib.Core.Bool.{false≢true}
use mathlib.Core.List.{Permᴰ}
use mathlib.Core.List.Permᴰ
use my_chat.Prelude.{
  Comparable, ==_iff, has_value, Bool-cases, sym, ap, ◌∙◌, ◌||◌, ℕ, suc, ◌≡◌, subst, inl, inr, Bool,
  true, false, Option, none, some, List, [], ◌∷◌, ◌++◌, arith, IsIn, select, nat_comparable, ◌==◌,
  if◌then◌else◌,
}
use my_chat.Storage.{Database, Schema, Table, Eraser, replace}

abbrev pub memory : Type 0 → Database
memory D = record { Db = D; begin = some; commit = some }

-- Keys that the database gives, counting up from 1.
unfoldable pub fresh : {Row : Type 0} → (Row → ℕ) → Row → List Row → ℕ
fresh key r [] = 1
fresh key r (x ∷ xs) = max (suc (key x)) (fresh key r xs)

module _ {Key Row : Type 0} ⦃c : Comparable Key⦄ (s : Schema Key Row) where
  unfoldable pub clashes : Row → List Row → Bool
  clashes r [] = false
  clashes r (x ∷ xs) = let rest = clashes r xs in if s.conflicts x r then true else rest

  pub clashes-false :
      (r : Row) (xs : List Row) (x : Row)
      → clashes r xs ≡ false
      → IsIn x xs
      → s.conflicts x r ≡ false
  unfolding clashes
  clashes-false r [] x e h = absurd h
  clashes-false r (y ∷ xs) x e (inl p) = rw p (ground arith)
  clashes-false r (y ∷ xs) x e (inr h) = clashes-false r xs x (ground arith) h

  unfoldable pub find : Key → List Row → Option Row
  find k [] = none
  find k (x ∷ xs) = let rest = find k xs in if s.key x == k then some x else rest

  pub find-IsIn :
      (k : Key) (xs : List Row) (r : Row) → find k xs ≡ some r → IsIn r xs × (s.key r ≡ k)
  unfolding find
  find-IsIn k [] r e = ground arith
  find-IsIn k (x ∷ xs) r e = elim (Bool-cases (s.key x == k)) [
    | inl hit ↦
        let same : x ≡ r = cc (rw hit at e) in
        (inl (sym same), ap s.key (sym same) ∙ (==_iff (s.key x) k).0 hit)
    | inr miss ↦ let (m, key) = find-IsIn k xs r (rw miss at e) in (inr m, key)
  ]

  pub find-none :
      (k : Key) (xs : List Row) (x : Row)
      → has_value (find k xs) ≡ false
      → IsIn x xs
      → (s.key x == k) ≡ false
  unfolding find
  find-none k [] x e h = absurd h
  find-none k (y ∷ xs) x e (inl p) = elim (Bool-cases (s.key y == k)) [
    | inl hit ↦ absurd (false≢true (sym (rw hit at e)))
    | inr miss ↦ rw p miss
  ]
  find-none k (y ∷ xs) x e (inr h) = elim (Bool-cases (s.key y == k)) [
    | inl hit ↦ absurd (false≢true (sym (rw hit at e)))
    | inr miss ↦ find-none k xs x (rw miss at e) h
  ]

-- `pick` is the key of a new row. `get` and `put` reach the table's rows in a state that holds several tables.
module _ {Key Row D : Type 0} ⦃c : Comparable Key⦄ (s : Schema Key Row)
    (pick : Row → List Row → Key) (get : D → List Row) (put : List Row → D → D)
    (get-put : (xs : List Row) (d : D) → get (put xs d) ≡ xs) where
  unfoldable pub insert : Row → D → Option (Key × D)
  insert r d =
      if has_value (find s (pick r (get d)) (get d)) || clashes s r (get d)
      then none
      else some (pick r (get d), put (get d ++ s.assign (pick r (get d)) r ∷ []) d)

  -- What an insertion that succeeds says.
  pub insert_steps :
      (r : Row) (d : D) (k : Key) (t : D)
      → insert r d ≡ some (k, t)
      → (k ≡ pick r (get d))
        × (t ≡ put (get d ++ s.assign k r ∷ []) d)
        × (has_value (find s k (get d)) ≡ false)
        × (clashes s r (get d) ≡ false)
  unfolding insert
  insert_steps r d k t e =
      let rows = get d in
      elim (Bool-cases (has_value (find s (pick r rows) rows))) [
        | inl there ↦ cc (rw there at e)
        | inr new ↦ elim (Bool-cases (clashes s r rows)) [
          | inl clash ↦ cc (rw (new, clash) at e)
          | inr free ↦
              let done = rw (new, free) at e in
              let key : pick r rows ≡ k = cc in
              let state : put (rows ++ s.assign (pick r rows) r ∷ []) d ≡ t = cc in
              (
                sym key,
                sym state ∙ ap (λ i. put (rows ++ s.assign i r ∷ []) d) key,
                subst (λ i. has_value (find s i rows) ≡ false) key new,
                free,
              )
        ]
      ]

  pub insert_state :
      (r : Row) (d : D) (k : Key) (t : D)
      → insert r d ≡ some (k, t)
      → t ≡ put (get d ++ s.assign k r ∷ []) d
  insert_state r d k t e = let (_, after, _, _) = insert_steps r d k t e in after

  pub insert_rows :
      (r : Row) (d : D) (k : Key) (t : D)
      → insert r d ≡ some (k, t)
      → get t ≡ get d ++ s.assign k r ∷ []
  insert_rows r d k t e =
      let (_, after, _, _) = insert_steps r d k t e in
      ap get after ∙ get-put (get d ++ s.assign k r ∷ []) d

  pub insert_key :
      (r : Row) (d : D) (k : Key) (t : D)
      → insert r d ≡ some (k, t)
      → (x : Row) → IsIn x (get d)
      → (s.key x == k) ≡ false
  insert_key r d k t e x h =
      let (_, _, new, _) = insert_steps r d k t e in find-none s k (get d) x new h

  pub insert_unique :
      (r : Row) (d : D) (k : Key) (t : D)
      → insert r d ≡ some (k, t)
      → (x : Row) → IsIn x (get d)
      → s.conflicts x r ≡ false
  insert_unique r d k t e x h =
      let (_, _, _, free) = insert_steps r d k t e in clashes-false s r (get d) x free h

  pub find_row :
      (k : Key) (d : D) (r : Row) → find s k (get d) ≡ some r → IsIn r (get d) × (s.key r ≡ k)
  find_row k d r e = find-IsIn s k (get d) r e

  pub same_rows : (d t : D) → some d ≡ some t → get t ≡ get d
  same_rows d t e = ground arith

  pub put_rows : (xs : List Row) (d t : D) → some (put xs d) ≡ some t → get t ≡ xs
  put_rows xs d t e = ground (arith, get-put xs d)

  pub select_rows :
      (p : Row → Bool) (d : D) (rs : List Row)
      → some (select p (get d)) ≡ some rs
      → Permᴰ rs (select p (get d))
  select_rows p d rs e =
      let same : select p (get d) ≡ rs = cc in
      subst (λ xs. Permᴰ xs (select p (get d))) same (Permᴰ.refl (select p (get d)))

  abbrev pub table : Table s (memory D)
  table = record {
    rows = get;
    persist = insert;
    load = λ k d. find s k (get d);
    query = λ p d. some (select p (get d));
    update = λ r d. some (put (replace s r (get d)) d);
    rows-begin = same_rows;
    rows-commit = same_rows;
    rows-persist = insert_rows;
    persist_key = insert_key;
    persist_unique = insert_unique;
    load_row = find_row;
    query_rows = select_rows;
    rows-update = λ r d t. put_rows (replace s r (get d)) d t;
  }

  abbrev pub eraser : Eraser s table
  eraser = record {
    erase = λ p d. some (put (select (λ x. if p x then false else true) (get d)) d);
    rows-erase = λ p d t. put_rows (select (λ x. if p x then false else true) (get d)) d t;
  }
