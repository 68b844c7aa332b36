-- ===== src/Storage/Sorting.antt =====
-- "ORDER BY" and "LIMIT" over the database in memory: insertion sort by a time.
use mathlib.Core.List.{Permᴰ}
use mathlib.Core.List.Permᴰ
use my_chat.Prelude.{
  ℕ, ◌≡◌, refl, sym, subst, inl, inr, Bool, true, false, Option, none, some, List, [], ◌∷◌, arith,
  IsIn-Permᴰ, Apart, select, take, if◌then◌else◌, Bool-cases, nat_comparable,
}
use my_chat.Prelude.Int.{ℤ, pos, negsuc, ltz, ltz_trans}
use my_chat.Storage.{Schema, Sorter, Direction, ascending, descending, Precedes}
use my_chat.Storage.Memory.{table}

abbrev pub before : Direction → ℤ → ℤ → Bool
before ascending s t = ltz s t
before descending s t = ltz t s

before_asym : (dir : Direction) (s t : ℤ) → before dir s t ≡ true → before dir t s ≡ false
before_asym ascending (pos m) (pos n) h = ground arith
before_asym ascending (pos m) (negsuc n) h = cc
before_asym ascending (negsuc m) (pos n) h = refl
before_asym ascending (negsuc m) (negsuc n) h = ground arith
before_asym descending (pos m) (pos n) h = ground arith
before_asym descending (pos m) (negsuc n) h = refl
before_asym descending (negsuc m) (pos n) h = cc
before_asym descending (negsuc m) (negsuc n) h = ground arith

before_trans :
    (dir : Direction) (r s t : ℤ)
    → before dir s r ≡ false
    → before dir t s ≡ false
    → before dir t r ≡ false
before_trans ascending r s t h k = ltz_trans r s t h k
before_trans descending r s t h k = ltz_trans t s r k h

module _ {Row : Type 0} (dir : Direction) (time : Row → ℤ) where
  unfoldable pub place : Row → List Row → List Row
  place x [] = x ∷ []
  place x (y ∷ ys) =
      let rest = place x ys in if before dir (time y) (time x) then y ∷ rest else x ∷ y ∷ ys

  unfoldable pub sort : List Row → List Row
  sort [] = []
  sort (x ∷ xs) = place x (sort xs)

  place-Permᴰ : (x : Row) (ys : List Row) → Permᴰ (place x ys) (x ∷ ys)
  unfolding place
  place-Permᴰ x [] = Permᴰ.refl (x ∷ [])
  place-Permᴰ x (y ∷ ys) = elim (Bool-cases (before dir (time y) (time x))) [
    | inl e ↦ rw e (Permᴰ.trans (Permᴰ.cons refl (place-Permᴰ x ys)) (Permᴰ.swap refl refl))
    | inr e ↦ rw e (Permᴰ.refl (x ∷ y ∷ ys))
  ]

  sort-Permᴰ : (xs : List Row) → Permᴰ (sort xs) xs
  unfolding sort
  sort-Permᴰ [] = Permᴰ.nil
  sort-Permᴰ (x ∷ xs) = Permᴰ.trans (place-Permᴰ x (sort xs)) (Permᴰ.cons refl (sort-Permᴰ xs))

  -- `x` is not after `y`.
  abbrev Ordered : Row → Row → Type 0
  Ordered x y = before dir (time y) (time x) ≡ false

  place-Apart : (x : Row) (ys : List Row) → Apart Ordered ys → Apart Ordered (place x ys)
  unfolding place
  place-Apart x [] h = (λ y m. absurd m, tt)
  place-Apart x (y ∷ ys) h = elim (Bool-cases (before dir (time y) (time x))) [
    | inl e ↦ rw e (
      λ z m. elim (IsIn-Permᴰ z (place-Permᴰ x ys) m) [
        | inl new ↦ subst (Ordered y) (sym new) (before_asym dir (time y) (time x) e)
        | inr old ↦ h.0 z old
      ],
      place-Apart x ys h.1,
    )
    | inr e ↦ rw e (
      λ z m. elim m [
        | inl here ↦ subst (Ordered x) (sym here) e
        | inr there ↦ before_trans dir (time x) (time y) (time z) e (h.0 z there)
      ],
      h,
    )
  ]

  sort-Apart : (xs : List Row) → Apart Ordered (sort xs)
  unfolding sort
  sort-Apart [] = tt
  sort-Apart (x ∷ xs) = place-Apart x (sort xs) (sort-Apart xs)

Ordered-Precedes :
    {Row : Type 0} (dir : Direction) (time : Row → ℤ) (xs : List Row)
    → Apart (λ x y. before dir (time y) (time x) ≡ false) xs
    → Apart (Precedes dir time) xs
Ordered-Precedes dir time [] h = tt
Ordered-Precedes ascending time (x ∷ xs) h = (h.0, Ordered-Precedes ascending time xs h.1)
Ordered-Precedes descending time (x ∷ xs) h = (h.0, Ordered-Precedes descending time xs h.1)

module _ {Row D : Type 0} (s : Schema ℕ Row) (pick : Row → List Row → ℕ) (get : D → List Row)
    (put : List Row → D → D) (get-put : (xs : List Row) (d : D) → get (put xs d) ≡ xs) where
  abbrev pub rows_sorted : (Row → Bool) → Direction → (Row → ℤ) → D → List Row
  rows_sorted p dir time d = sort dir time (select p (get d))

  abbrev pub limited : (Row → Bool) → Direction → (Row → ℤ) → ℤ → D → Option (List Row)
  limited p dir time (pos n) d = some (take n (rows_sorted p dir time d))
  limited p dir time (negsuc n) d = none

  all_sorted :
      (p : Row → Bool) (dir : Direction) (time : Row → ℤ) (d : D)
      → Permᴰ (rows_sorted p dir time d) (select p (get d))
        × Apart (Precedes dir time) (rows_sorted p dir time d)
  all_sorted p dir time d = (
    sort-Permᴰ dir time (select p (get d)),
    Ordered-Precedes dir time (rows_sorted p dir time d) (sort-Apart dir time (select p (get d))),
  )

  pub sorted_rows :
      (p : Row → Bool) (dir : Direction) (time : Row → ℤ) (d : D) (rs : List Row)
      → some (rows_sorted p dir time d) ≡ some rs
      → Permᴰ rs (select p (get d)) × Apart (Precedes dir time) rs
  sorted_rows p dir time d rs e =
      let same : rows_sorted p dir time d ≡ rs = cc in
      subst (λ xs. Permᴰ xs (select p (get d)) × Apart (Precedes dir time) xs) same
        (all_sorted p dir time d)

  pub limited_rows :
      (p : Row → Bool) (dir : Direction) (time : Row → ℤ) (n : ℕ) (d : D) (rs : List Row)
      → some (take n (rows_sorted p dir time d)) ≡ some rs
      → (all : List Row) × Permᴰ all (select p (get d))
        × Apart (Precedes dir time) all
        × (rs ≡ take n all)
  limited_rows p dir time n d rs e =
      let (perm, order) = all_sorted p dir time d in
      let same : rs ≡ take n (rows_sorted p dir time d) = cc in
      (rows_sorted p dir time d, perm, order, same)

  abbrev pub sorter : Sorter s (table s pick get put get-put)
  sorter = record {
    sorted = λ p dir time d. some (rows_sorted p dir time d);
    limited = limited;
    sorted_rows = sorted_rows;
    limited_rows = limited_rows;
    limited-negsuc = λ p dir time n d. refl;
  }
