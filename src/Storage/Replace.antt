-- ===== src/Storage/Replace.antt =====
-- The table after `update`: what replacing the row of one key keeps.
use my_chat.Prelude.{
  ◌≡◌, ◌⊎◌, false, subst, inl, inr, List, [], ◌∷◌, IsIn, IsIn-map, IsIn-map_inv, All, Apart,
  Apart-map, Comparable, ◌==◌, ==_iff, if◌then◌else◌, Bool-cases,
}
use my_chat.Storage.{Schema, replace}

module _ {Key Row : Type 0} ⦃c : Comparable Key⦄ (s : Schema Key Row) where
  -- What stands in the place of `x`.
  abbrev replaced : Row → Row → Row
  replaced new x = if s.key x == s.key new then new else x

  pub All-replace {κ} :
      (P : Row → Type κ) (new : Row) (xs : List Row) → P new → All P xs → All P (replace s new xs)
  unfolding replace
  All-replace P new [] h hs = tt
  All-replace P new (x ∷ xs) h hs = elim (Bool-cases (s.key x == s.key new)) [
    | inl hit ↦ (rw hit h, All-replace P new xs h hs.1)
    | inr miss ↦ (rw miss hs.0, All-replace P new xs h hs.1)
  ]

  -- A row of the table after `update` is the new one, or was there under another key.
  pub IsIn-replace :
      (new : Row) (xs : List Row) (y : Row)
      → IsIn y (replace s new xs)
      → (x : Row) × IsIn x xs × (y ≡ (if s.key x == s.key new then new else x))
  unfolding replace
  IsIn-replace new xs y m = IsIn-map_inv (replaced new) y xs m

  placed_cases :
      (new x y : Row) (xs : List Row)
      → IsIn x xs
      → y ≡ replaced new x
      → (y ≡ new) ⊎ (IsIn y xs × ((s.key y == s.key new) ≡ false))
  placed_cases new x y xs m e = elim (Bool-cases (s.key x == s.key new)) [
    | inl hit ↦ inl (rw hit at e)
    | inr miss ↦ let same : y ≡ x = rw miss at e in rw same (inr (m, miss))
  ]

  pub IsIn-replace_cases :
      (new : Row) (xs : List Row) (y : Row)
      → IsIn y (replace s new xs)
      → (y ≡ new) ⊎ (IsIn y xs × ((s.key y == s.key new) ≡ false))
  IsIn-replace_cases new xs y m =
      let (x, mx, e) = IsIn-replace new xs y m in placed_cases new x y xs mx e

  pub replace-IsIn :
      (new : Row) (xs : List Row) (x : Row)
      → IsIn x xs
      → IsIn (if s.key x == s.key new then new else x) (replace s new xs)
  unfolding replace
  replace-IsIn new xs x m = IsIn-map (replaced new) x xs m

  -- The new row is there, if a row of its key was.
  pub new-IsIn-replace :
      (old new : Row) (xs : List Row)
      → IsIn old xs
      → s.key old ≡ s.key new
      → IsIn new (replace s new xs)
  new-IsIn-replace old new xs m same =
      rw ((==_iff (s.key old) (s.key new)).1 same) at (replace-IsIn new xs old m)

  module _ {κ} (R : Row → Row → Type κ) (old new : Row) (xs : List Row)
      (unique : (x : Row) → IsIn x xs → s.key x ≡ s.key new → x ≡ old)
      (right : (x : Row) → R x old → R x new) (left : (x : Row) → R old x → R new x) where
    replaced_keeps :
        (x y : Row) → IsIn x xs → IsIn y xs → R x y → R (replaced new x) (replaced new y)
    replaced_keeps x y mx my h = elim (Bool-cases (s.key x == s.key new)) [
      | inl hx ↦
          let x_old : x ≡ old = unique x mx ((==_iff (s.key x) (s.key new)).0 hx) in
          elim (Bool-cases (s.key y == s.key new)) [
            | inl hy ↦
                let y_old : y ≡ old = unique y my ((==_iff (s.key y) (s.key new)).0 hy) in
                rw (hx, hy)
                  (left new (right old (subst (λ t. R t old) x_old (subst (R x) y_old h))))
            | inr hy ↦ rw (hx, hy) (left y (subst (λ t. R t y) x_old h))
          ]
      | inr hx ↦ elim (Bool-cases (s.key y == s.key new)) [
        | inl hy ↦
            let y_old : y ≡ old = unique y my ((==_iff (s.key y) (s.key new)).0 hy) in
            rw (hx, hy) (right x (subst (R x) y_old h))
        | inr hy ↦ rw (hx, hy) h
      ]
    ]

    -- Replacing the one row of its key by a row that is related to the others alike.
    pub Apart-replace : Apart R xs → Apart R (replace s new xs)
    unfolding replace
    Apart-replace h = Apart-map R R (replaced new) xs replaced_keeps h
