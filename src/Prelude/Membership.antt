-- ===== src/Prelude/Membership.antt =====
-- Membership and rearrangement, as data that proofs take apart.
use mathlib.Core.List.{Permᴰ}
use mathlib.Core.Path.{◌≡◌, refl, sym, ap, subst, ◌∙◌}
use mathlib.Core.Logic.{◌⊎◌, inl, inr}
use mathlib.Core.Bool.{Bool, true}
use mathlib.Core.List.{List, [], ◌∷◌, ◌++◌, map}
use native.Mathlib.Omega.{arith}
use my_chat.Prelude.Lists.{length, select, All}
use my_chat.Prelude.Tests.{Bool-cases}

module _ {A : Type 0} where
  abbrev pub IsIn : A → List A → Type 0
  IsIn x [] = ⊥
  IsIn x (y ∷ ys) = (x ≡ y) ⊎ IsIn x ys

  pub IsIn-append_left : (x : A) (xs ys : List A) → IsIn x xs → IsIn x (xs ++ ys)
  IsIn-append_left x [] ys h = absurd h
  IsIn-append_left x (y ∷ xs) ys (inl e) = inl e
  IsIn-append_left x (y ∷ xs) ys (inr h) = inr (IsIn-append_left x xs ys h)

  pub IsIn-append_right : (x : A) (xs ys : List A) → IsIn x ys → IsIn x (xs ++ ys)
  IsIn-append_right x [] ys h = h
  IsIn-append_right x (y ∷ xs) ys h = inr (IsIn-append_right x xs ys h)

  pub IsIn-append_cases : (x : A) (xs ys : List A) → IsIn x (xs ++ ys) → IsIn x xs ⊎ IsIn x ys
  IsIn-append_cases x [] ys h = inr h
  IsIn-append_cases x (y ∷ xs) ys (inl e) = inl (inl e)
  IsIn-append_cases x (y ∷ xs) ys (inr h) = ground (arith, IsIn-append_cases x xs ys h)

  pub All-IsIn {κ} : (P : A → Type κ) (xs : List A) (x : A) → All P xs → IsIn x xs → P x
  All-IsIn P [] x h m = absurd m
  All-IsIn P (y ∷ xs) x h (inl e) = rw e h.0
  All-IsIn P (y ∷ xs) x h (inr m) = All-IsIn P xs x h.1 m

  pub All-of_IsIn {κ} : (P : A → Type κ) (xs : List A) → ((x : A) → IsIn x xs → P x) → All P xs
  All-of_IsIn P [] h = tt
  All-of_IsIn P (y ∷ xs) h = (h y (inl refl), All-of_IsIn P xs (λ x m. h x (inr m)))

  pub IsIn-select :
      (p : A → Bool) (x : A) (xs : List A) → IsIn x (select p xs) → IsIn x xs × (p x ≡ true)
  unfolding select
  IsIn-select p x [] h = absurd h
  IsIn-select p x (y ∷ xs) h = ground (arith, IsIn-select p x xs)

  pub IsIn-select_of :
      (p : A → Bool) (x : A) (xs : List A) → IsIn x xs → p x ≡ true → IsIn x (select p xs)
  unfolding select
  IsIn-select_of p x [] h e = absurd h
  IsIn-select_of p x (y ∷ xs) h e = ground (arith, IsIn-select_of p x xs)

  pub IsIn-Permᴰ : {xs ys : List A} (x : A) → Permᴰ xs ys → IsIn x xs → IsIn x ys
  IsIn-Permᴰ x Permᴰ.nil h = h
  IsIn-Permᴰ x (Permᴰ.cons e p) (inl h) = inl (h ∙ e)
  IsIn-Permᴰ x (Permᴰ.cons e p) (inr h) = inr (IsIn-Permᴰ x p h)
  IsIn-Permᴰ x (Permᴰ.swap e f) (inl h) = inr (inl (h ∙ e))
  IsIn-Permᴰ x (Permᴰ.swap e f) (inr (inl h)) = inl (h ∙ f)
  IsIn-Permᴰ x (Permᴰ.swap e f) (inr (inr h)) = inr (inr h)
  IsIn-Permᴰ x (Permᴰ.trans p q) h = IsIn-Permᴰ x q (IsIn-Permᴰ x p h)

  pub length-Permᴰ : {xs ys : List A} → Permᴰ xs ys → length xs ≡ length ys
  length-Permᴰ Permᴰ.nil = refl
  length-Permᴰ (Permᴰ.cons e p) = omega (arith, length-Permᴰ p)
  length-Permᴰ (Permᴰ.swap e f) = refl
  length-Permᴰ (Permᴰ.trans p q) = length-Permᴰ p ∙ length-Permᴰ q

  -- No two elements are related.
  abbrev pub Apart {κ} : (A → A → Type κ) → List A → Type κ
  Apart R [] = Unit
  Apart R (x ∷ xs) = ((y : A) → IsIn y xs → R x y) × Apart R xs

  pub Apart-append_one {κ} :
      (R : A → A → Type κ) (xs : List A) (y : A)
      → Apart R xs
      → ((x : A) → IsIn x xs → R x y)
      → Apart R (xs ++ y ∷ [])
  Apart-append_one R [] y h new = (λ z m. absurd m, tt)
  Apart-append_one R (x ∷ xs) y h new = (
    λ z m. elim (IsIn-append_cases z xs (y ∷ []) m) [
      | inl old ↦ h.0 z old
      | inr (inl e) ↦ subst (R x) (sym e) (new x (inl refl))
      | inr (inr none) ↦ absurd none
    ],
    Apart-append_one R xs y h.1 (λ z m. new z (inr m)),
  )

  pub Apart-last {κ} :
      (R : A → A → Type κ) (xs : List A) (x y : A) → Apart R (xs ++ y ∷ []) → IsIn x xs → R x y
  Apart-last R [] x y h m = absurd m
  Apart-last R (z ∷ xs) x y h (inl e) =
      subst (λ t. R t y) (sym e) (h.0 y (IsIn-append_right y xs (y ∷ []) (inl refl)))
  Apart-last R (z ∷ xs) x y h (inr m) = Apart-last R xs x y h.1 m

  -- Two members between which `R` fails both ways are one.
  pub Apart-eq {κ} :
      (R : A → A → Type κ) (xs : List A) (x y : A)
      → Apart R xs
      → IsIn x xs
      → IsIn y xs
      → ¬ R x y
      → ¬ R y x
      → x ≡ y
  Apart-eq R [] x y h mx my nxy nyx = absurd mx
  Apart-eq R (z ∷ xs) x y h (inl ex) (inl ey) nxy nyx = ex ∙ sym ey
  Apart-eq R (z ∷ xs) x y h (inl ex) (inr my) nxy nyx =
      absurd (nxy (subst (λ t. R t y) (sym ex) (h.0 y my)))
  Apart-eq R (z ∷ xs) x y h (inr mx) (inl ey) nxy nyx =
      absurd (nyx (subst (λ t. R t x) (sym ey) (h.0 x mx)))
  Apart-eq R (z ∷ xs) x y h (inr mx) (inr my) nxy nyx = Apart-eq R xs x y h.1 mx my nxy nyx

  pub Apart-select {κ} :
      (R : A → A → Type κ) (p : A → Bool) (xs : List A) → Apart R xs → Apart R (select p xs)
  unfolding select
  Apart-select R p [] h = tt
  Apart-select R p (x ∷ xs) h = elim (Bool-cases (p x)) [
    | inl e ↦ rw e (λ y m. h.0 y (IsIn-select p y xs m).0, Apart-select R p xs h.1)
    | inr e ↦ rw e (Apart-select R p xs h.1)
  ]

module _ {A B : Type 0} (f : A → B) where
  pub IsIn-map : (x : A) (xs : List A) → IsIn x xs → IsIn (f x) (map f xs)
  IsIn-map x [] m = absurd m
  IsIn-map x (y ∷ xs) (inl e) = inl (ap f e)
  IsIn-map x (y ∷ xs) (inr m) = inr (IsIn-map x xs m)

  pub IsIn-map_inv : (y : B) (xs : List A) → IsIn y (map f xs) → (x : A) × IsIn x xs × (y ≡ f x)
  IsIn-map_inv y [] m = absurd m
  IsIn-map_inv y (x ∷ xs) (inl e) = (x, inl refl, e)
  IsIn-map_inv y (x ∷ xs) (inr m) = let (z, n, e) = IsIn-map_inv y xs m in (z, inr n, e)

module _ {A B : Type 0} where
  pub Apart-map {κ μ} :
      (R : A → A → Type κ) (S : B → B → Type μ) (f : A → B) (xs : List A)
      → ((x y : A) → IsIn x xs → IsIn y xs → R x y → S (f x) (f y))
      → Apart R xs
      → Apart S (map f xs)
  Apart-map R S f [] keep h = tt
  Apart-map R S f (x ∷ xs) keep h = (
    λ z m.
        let (y, n, e) = IsIn-map_inv f z xs m in
        subst (S (f x)) (sym e) (keep x y (inl refl) (inr n) (h.0 y n)),
    Apart-map R S f xs (λ a b ma mb. keep a b (inr ma) (inr mb)) h.1,
  )
