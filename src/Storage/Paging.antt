-- ===== src/Storage/Paging.antt =====
-- Pages: the first rows of a query in order of a time.
use mathlib.Core.List.{Permᴰ}
use mathlib.Core.List.Permᴰ
use Prim.Native.Nat.{min}
use my_chat.Prelude.{
  ℕ, zero, suc, ◌≡◌, ◌≢◌, ◌∙◌, sym, ap, subst, ◌⊎◌, inl, inr, Bool, true, none, List, [], ◌∷◌, IsIn,
  IsIn-Permᴰ, IsIn-select, IsIn-select_of, Apart, length, take, drop, take-append-drop, ◌++◌,
  select, length-take, length-Permᴰ, Option-cases, or_empty, Comparable,
}
use my_chat.Prelude.Int.{ℤ, pos}
use my_chat.Storage.{Database, Schema, Table, Sorter, Direction, Precedes, sorted_by, limited_to}
use my_chat.Storage.Laws.{sorted_by_rows, limited_to_rows}

pub take-IsIn : {A : Type 0} (n : ℕ) (x : A) (xs : List A) → IsIn x (take n xs) → IsIn x xs
take-IsIn zero x xs m = absurd m
take-IsIn (suc n) x [] m = absurd m
take-IsIn (suc n) x (y ∷ xs) (inl e) = inl e
take-IsIn (suc n) x (y ∷ xs) (inr m) = inr (take-IsIn n x xs m)

module _ {Row : Type 0} (dir : Direction) (time : Row → ℤ) where
  take-Apart :
      (n : ℕ) (xs : List Row) → Apart (Precedes dir time) xs → Apart (Precedes dir time) (take n xs)
  take-Apart zero xs h = tt
  take-Apart (suc n) [] h = tt
  take-Apart (suc n) (x ∷ xs) h = (λ y m. h.0 y (take-IsIn n y xs m), take-Apart n xs h.1)

  -- What the cut keeps may stand before what it leaves out.
  cut_later :
      (n : ℕ) (xs : List Row)
      → Apart (Precedes dir time) xs
      → (x y : Row) → IsIn x xs
      → IsIn y (take n xs)
      → IsIn x (take n xs) ⊎ Precedes dir time y x
  cut_later zero xs h x y mx my = absurd my
  cut_later (suc n) [] h x y mx my = absurd mx
  cut_later (suc n) (z ∷ xs) h x y (inl e) my = inl (inl e)
  cut_later (suc n) (z ∷ xs) h x y (inr mx) (inl e) =
      inr (subst (λ t. Precedes dir time t x) (sym e) (h.0 x mx))
  cut_later (suc n) (z ∷ xs) h x y (inr mx) (inr my) = elim (cut_later n xs h.1 x y mx my) [
    | inl kept ↦ inl (inr kept)
    | inr late ↦ inr late
  ]

-- A page of the rows that pass `p`, by their time: in order, `n` of them or all if there are fewer,
-- none left out that belongs before one of the page, and none more often than it is stored.
pub record IsPage {Row : Type 0} (dir : Direction) (time : Row → ℤ) (p : Row → Bool) (n : ℕ)
    (rows page : List Row) : Type 0 where
  pub order : Apart (Precedes dir time) page
  pub exact : (rest : List Row) × Permᴰ (page ++ rest) (select p rows)
  pub size : length page ≡ min n (length (select p rows))
  pub matches : (x : Row) → IsIn x page → IsIn x rows × (p x ≡ true)
  pub foremost :
      (x y : Row) → IsIn x rows → p x ≡ true → IsIn y page → IsIn x page ⊎ Precedes dir time y x

pub IsPage-of :
    {Row : Type 0} (dir : Direction) (time : Row → ℤ) (p : Row → Bool) (n : ℕ) (rows all : List Row)
    → Permᴰ all (select p rows)
    → Apart (Precedes dir time) all
    → IsPage dir time p n rows (take n all)
IsPage-of dir time p n rows all perm order = record {
  order = take-Apart dir time n all order;
  exact = (drop n all, subst (λ xs. Permᴰ xs (select p rows)) (sym (take-append-drop n all)) perm);
  size = length-take n all ∙ ap (min n) (length-Permᴰ perm);
  matches = λ x m. IsIn-select p x rows (IsIn-Permᴰ x perm (take-IsIn n x all m));
  foremost = λ x y mx px my.
      cut_later dir time n all order x y
        (IsIn-Permᴰ x (Permᴰ.symm perm) (IsIn-select_of p x rows mx px)) my;
}

module _ {Key Row : Type 0} ⦃c : Comparable Key⦄ {s : Schema Key Row} {db : Database}
    (table : Table s db) (sorter : Sorter s table) (dir : Direction) (time : Row → ℤ) where
  open db use {Db}
  open table use {rows}

  pub sorted_by-IsPage :
      (p : Row → Bool) (n : ℕ) (d : Db)
      → sorted_by table sorter p dir time d ≢ none
      → IsPage dir time p n (rows d) (take n (or_empty (sorted_by table sorter p dir time d)))
  sorted_by-IsPage p n d answers = elim (Option-cases (sorted_by table sorter p dir time d)) [
    | inl e ↦ absurd (answers e)
    | inr (all, e) ↦
        let (perm, order) = sorted_by_rows table sorter p dir time d all e in
        rw e (IsPage-of dir time p n (rows d) all perm order)
  ]

  pub limited_to-IsPage :
      (p : Row → Bool) (n : ℕ) (d : Db)
      → limited_to table sorter p dir time (pos n) d ≢ none
      → IsPage dir time p n (rows d) (or_empty (limited_to table sorter p dir time (pos n) d))
  limited_to-IsPage p n d answers =
      elim (Option-cases (limited_to table sorter p dir time (pos n) d)) [
        | inl e ↦ absurd (answers e)
        | inr (rs, e) ↦
            let (all, perm, order, page) = limited_to_rows table sorter p dir time n d rs e in
            rw (e, page) (IsPage-of dir time p n (rows d) all perm order)
      ]
