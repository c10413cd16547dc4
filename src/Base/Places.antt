-- ===== src/Base/Places.antt =====
-- Changes of a list at places, one after the other.
use Prim.Native.Nat.{ℕ, zero, suc}
use mathlib.Core.Path.{◌≡◌, refl, ap}
use mathlib.Core.Logic.{◌≢◌}
use mathlib.Core.List.{List, [], ◌∷◌}
use mathlib.Core.Option.{none, some}
use native.Mathlib.Omega.{arith}
use thermal_recovery_flow.Base.Lists.{get_elem?, at_place}

module _ {ℓ} {A : Type ℓ} where
  pub get_elem?-at_place_ne :
      (f : A → A) (i j : ℕ) (xs : List A) → i ≢ j → get_elem? (at_place i f xs) j ≡ get_elem? xs j
  get_elem?-at_place_ne f i j [] h = refl
  get_elem?-at_place_ne f zero zero (x ∷ xs) h = absurd (h refl)
  get_elem?-at_place_ne f zero (suc j) (x ∷ xs) h = refl
  get_elem?-at_place_ne f (suc i) zero (x ∷ xs) h = refl
  get_elem?-at_place_ne f (suc i) (suc j) (x ∷ xs) h =
      get_elem?-at_place_ne f i j xs (λ e. h (ap suc e))

  pub get_elem?-at_place_self :
      (f : A → A) (i : ℕ) (xs : List A) (x : A)
      → get_elem? xs i ≡ some x
      → get_elem? (at_place i f xs) i ≡ some (f x)
  get_elem?-at_place_self f i [] x h = ground arith
  get_elem?-at_place_self f zero (y ∷ xs) x h = ground arith
  get_elem?-at_place_self f (suc i) (y ∷ xs) x h = get_elem?-at_place_self f i xs x h

  pub at_place_comm :
      (f g : A → A) (i j : ℕ) (xs : List A)
      → i ≢ j
      → at_place i f (at_place j g xs) ≡ at_place j g (at_place i f xs)
  at_place_comm f g i j [] h = refl
  at_place_comm f g zero zero (x ∷ xs) h = absurd (h refl)
  at_place_comm f g zero (suc j) (x ∷ xs) h = refl
  at_place_comm f g (suc i) zero (x ∷ xs) h = refl
  at_place_comm f g (suc i) (suc j) (x ∷ xs) h =
      ap (◌∷◌ x) (at_place_comm f g i j xs (λ e. h (ap suc e)))

  pub at_place-at_place :
      (f g : A → A) (i : ℕ) (xs : List A)
      → at_place i f (at_place i g xs) ≡ at_place i (λ x. f (g x)) xs
  at_place-at_place f g i [] = refl
  at_place-at_place f g zero (x ∷ xs) = refl
  at_place-at_place f g (suc i) (x ∷ xs) = ap (◌∷◌ x) (at_place-at_place f g i xs)

  pub at_place-none :
      (f : A → A) (i : ℕ) (xs : List A) → get_elem? xs i ≡ none → at_place i f xs ≡ xs
  at_place-none f i [] h = refl
  at_place-none f zero (x ∷ xs) h = cc
  at_place-none f (suc i) (x ∷ xs) h = ap (◌∷◌ x) (at_place-none f i xs h)

  -- Only the entry at the place matters.
  pub at_place-some :
      (f g : A → A) (i : ℕ) (xs : List A) (x : A)
      → get_elem? xs i ≡ some x
      → f x ≡ g x
      → at_place i f xs ≡ at_place i g xs
  at_place-some f g i [] x h e = refl
  at_place-some f g zero (y ∷ xs) x h e = ground arith
  at_place-some f g (suc i) (y ∷ xs) x h e = ap (◌∷◌ y) (at_place-some f g i xs x h e)
