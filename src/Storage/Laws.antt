-- ===== src/Storage/Laws.antt =====
-- What a transaction of Storage does to the rows of its table.
use mathlib.Core.List.{Permᴰ}
use mathlib.Core.List.Permᴰ
use my_chat.Prelude.{
  ℕ, Apart, take, ◌≡◌, ◌∙◌, sym, ap, subst, Bool, true, false, none, some, List, [], ◌∷◌, ◌++◌,
  IsIn, IsIn-Permᴰ, IsIn-select, IsIn-select_of, select, Comparable, ◌==◌, if◌then◌else◌,
  >>=-eq-some, Option-cases, ◌>>=◌, refl, inl, inr,
}
use my_chat.Prelude.Int.{ℤ, pos}
use my_chat.Storage.{
  Sorter, Direction, Precedes, sorted_by, limited_to, Database, Schema, Table, Eraser, replace,
  persisted, loaded, fetched, queried, updated, erased,
}

module _ {Key Row : Type 0} ⦃c : Comparable Key⦄ {s : Schema Key Row} {db : Database}
    (table : Table s db) where
  open db use {Db, begin, commit}
  open table use {rows}

  pub persisted_steps :
      (r : Row) (d : Db) (k : Key) (t : Db)
      → persisted table r d ≡ some (k, t)
      → (t₁ t₂ : Db) × (begin d ≡ some t₁)
        × (table.persist r t₁ ≡ some (k, t₂))
        × (commit t₂ ≡ some t)
  unfolding persisted
  persisted_steps r d k t h =
      let (t₁, p, h₁) = >>=-eq-some (begin d) _ h in
      let ((k', t₂), q, h₂) = >>=-eq-some (table.persist r t₁) _ h₁ in
      let (t₃, u, h₃) = >>=-eq-some (commit t₂) _ h₂ in (t₁, t₂, p, cc, cc)

  -- A transaction that persists a row appends it under a new key, and breaks no index.
  pub rows-persisted :
      (r : Row) (d : Db) (k : Key) (t : Db)
      → persisted table r d ≡ some (k, t)
      → (rows t ≡ rows d ++ s.assign k r ∷ [])
        × ((x : Row) → IsIn x (rows d) → ((s.key x == k) ≡ false) × (s.conflicts x r ≡ false))
  rows-persisted r d k t h =
      let (t₁, t₂, p, q, u) = persisted_steps r d k t h in
      let same : rows t₁ ≡ rows d = table.rows-begin d t₁ p in
      (
        table.rows-commit t₂ t u
            ∙ table.rows-persist r t₁ k t₂ q
            ∙ ap (λ xs. xs ++ s.assign k r ∷ []) same,
        λ x m.
            let m' = subst (IsIn x) (sym same) m in
            (table.persist_key r t₁ k t₂ q x m', table.persist_unique r t₁ k t₂ q x m'),
      )

  pub loaded_row :
      (k : Key) (d : Db) (r : Row) → loaded table k d ≡ some r → IsIn r (rows d) × (s.key r ≡ k)
  unfolding loaded
  loaded_row k d r h =
      let (t₁, p, h₁) = >>=-eq-some (begin d) _ h in
      let (r', q, h₂) = >>=-eq-some (table.load k t₁) _ h₁ in
      let (t₃, u, h₃) = >>=-eq-some (commit t₁) _ h₂ in
      let (m, same) = table.load_row k t₁ r' q in
      let back : r' ≡ r = cc in rw (← back) (subst (IsIn r') (table.rows-begin d t₁ p) m, same)

  pub fetched_rows :
      (p : Row → Bool) (d : Db) (rs : List Row)
      → fetched table p d ≡ some rs
      → Permᴰ rs (select p (rows d))
  unfolding fetched
  fetched_rows p d rs h =
      let (t₁, b, h₁) = >>=-eq-some (begin d) _ h in
      let (rs', q, h₂) = >>=-eq-some (table.query p t₁) _ h₁ in
      let (t₃, u, h₃) = >>=-eq-some (commit t₁) _ h₂ in
      let back : rs' ≡ rs = cc in
      rw (← back) (
        subst (λ xs. Permᴰ rs' (select p xs)) (table.rows-begin d t₁ b)
          (table.query_rows p t₁ rs' q))

  -- A transaction that changes a row replaces the row of that key.
  pub rows-updated :
      (k : Key) (change : Row → Row) (d : Db) (r : Row) (t : Db)
      → updated table k change d ≡ some (r, t)
      → (old : Row) × IsIn old (rows d)
        × (s.key old ≡ k)
        × (r ≡ change old)
        × (rows t ≡ replace s r (rows d))
  unfolding updated
  rows-updated k change d r t h =
      let (t₁, p, h₁) = >>=-eq-some (begin d) _ h in
      let (old, q, h₂) = >>=-eq-some (table.load k t₁) _ h₁ in
      let (t₂, u, h₃) = >>=-eq-some (table.update (change old) t₁) _ h₂ in
      let (t₃, v, h₄) = >>=-eq-some (commit t₂) _ h₃ in
      let same : rows t₁ ≡ rows d = table.rows-begin d t₁ p in
      let (m, key) = table.load_row k t₁ old q in
      let changed : r ≡ change old = cc in
      let last : t₃ ≡ t = cc in
      (
        old,
        subst (IsIn old) same m,
        key,
        changed,
        ap rows (sym last)
            ∙ table.rows-commit t₂ t₃ v
            ∙ table.rows-update (change old) t₁ t₂ u
            ∙ ap (replace s (change old)) same
            ∙ ap (λ x. replace s x (rows d)) (sym changed),
      )

  pub erased_steps :
      (eraser : Eraser s table) (p : Row → Bool) (d t : Db)
      → erased table eraser p d ≡ some t
      → (t₁ t₂ : Db) × (begin d ≡ some t₁) × (eraser.erase p t₁ ≡ some t₂) × (commit t₂ ≡ some t)
  unfolding erased
  erased_steps eraser p d t h =
      let (t₁, b, h₁) = >>=-eq-some (begin d) _ h in
      let (t₂, q, u) = >>=-eq-some (eraser.erase p t₁) _ h₁ in (t₁, t₂, b, q, u)

  pub rows-erased :
      (eraser : Eraser s table) (p : Row → Bool) (d t : Db)
      → erased table eraser p d ≡ some t
      → rows t ≡ select (λ x. if p x then false else true) (rows d)
  unfolding erased
  rows-erased eraser p d t h =
      let (t₁, b, h₁) = >>=-eq-some (begin d) _ h in
      let (t₂, q, u) = >>=-eq-some (eraser.erase p t₁) _ h₁ in
      table.rows-commit t₂ t u
      ∙ eraser.rows-erase p t₁ t₂ q
      ∙ ap (select (λ x. if p x then false else true)) (table.rows-begin d t₁ b)

  -- A query returns the rows that pass its test, all of them and no other.
  pub IsIn-fetched :
      (p : Row → Bool) (d : Db) (rs : List Row)
      → fetched table p d ≡ some rs
      → (x : Row) → IsIn x (rows d)
      → p x ≡ true
      → IsIn x rs
  IsIn-fetched p d rs h x m e =
      IsIn-Permᴰ x (Permᴰ.symm (fetched_rows p d rs h)) (IsIn-select_of p x (rows d) m e)

  pub fetched-IsIn :
      (p : Row → Bool) (d : Db) (rs : List Row)
      → fetched table p d ≡ some rs
      → (x : Row) → IsIn x rs
      → IsIn x (rows d) × (p x ≡ true)
  fetched-IsIn p d rs h x m = IsIn-select p x (rows d) (IsIn-Permᴰ x (fetched_rows p d rs h) m)

  pub queried_rows :
      (p : Row → Bool) (d : Db) (rs : List Row)
      → queried table p d ≡ some rs
      → Permᴰ rs (select p (rows d))
  unfolding queried
  queried_rows p d rs h =
      let (t₁, b, q) = >>=-eq-some (begin d) _ h in
      subst (λ xs. Permᴰ rs (select p xs)) (table.rows-begin d t₁ b) (table.query_rows p t₁ rs q)

  pub IsIn-queried :
      (p : Row → Bool) (d : Db) (rs : List Row)
      → queried table p d ≡ some rs
      → (x : Row) → IsIn x (rows d)
      → p x ≡ true
      → IsIn x rs
  IsIn-queried p d rs h x m e =
      IsIn-Permᴰ x (Permᴰ.symm (queried_rows p d rs h)) (IsIn-select_of p x (rows d) m e)

  pub queried-IsIn :
      (p : Row → Bool) (d : Db) (rs : List Row)
      → queried table p d ≡ some rs
      → (x : Row) → IsIn x rs
      → IsIn x (rows d) × (p x ≡ true)
  queried-IsIn p d rs h x m = IsIn-select p x (rows d) (IsIn-Permᴰ x (queried_rows p d rs h) m)

  -- A query that fails makes the transaction fail.
  pub fetched-none : (p : Row → Bool) (d : Db) → queried table p d ≡ none → fetched table p d ≡ none
  unfolding fetched queried
  fetched-none p d h = elim (Option-cases (begin d)) [
    | inl e ↦ rw e refl
    | inr (t, e) ↦
        let failed : table.query p t ≡ none = ap (λ o. o >>= table.query p) (sym e) ∙ h in
        rw (e, failed) refl
  ]

  pub sorted_by_rows :
      (sorter : Sorter s table) (p : Row → Bool) (dir : Direction) (time : Row → ℤ) (d : Db)
      (rs : List Row)
      → sorted_by table sorter p dir time d ≡ some rs
      → Permᴰ rs (select p (rows d)) × Apart (Precedes dir time) rs
  unfolding sorted_by
  sorted_by_rows sorter p dir time d rs h =
      let (t₁, b, q) = >>=-eq-some (begin d) _ h in
      let (perm, order) = sorter.sorted_rows p dir time t₁ rs q in
      (subst (λ xs. Permᴰ rs (select p xs)) (table.rows-begin d t₁ b) perm, order)

  pub limited_to_rows :
      (sorter : Sorter s table) (p : Row → Bool) (dir : Direction) (time : Row → ℤ) (n : ℕ) (d : Db)
      (rs : List Row)
      → limited_to table sorter p dir time (pos n) d ≡ some rs
      → (all : List Row) × Permᴰ all (select p (rows d))
        × Apart (Precedes dir time) all
        × (rs ≡ take n all)
  unfolding limited_to
  limited_to_rows sorter p dir time n d rs h =
      let (t₁, b, q) = >>=-eq-some (begin d) _ h in
      let (all, perm, order, page) = sorter.limited_rows p dir time n t₁ rs q in
      (all, subst (λ xs. Permᴰ all (select p xs)) (table.rows-begin d t₁ b) perm, order, page)
