-- ===== src/Base/Lists.antt =====
-- Lists measured and indexed by native numbers, under the library's names.
use Prim.Native.Nat.{ℕ, zero, suc, ◌+◌, ◌-◌, ◌≤◌, min}
use mathlib.Core.Path.{◌≡◌, refl, ap, sym, ◌∙◌}
use mathlib.Core.List.{List, [], ◌∷◌, ◌++◌}
use mathlib.Core.Option.{Option, none, some}
use mathlib.Core.Bool.{Bool, true, ◌&&◌}
use native.Mathlib.Omega.{arith}
use thermal_recovery_flow.Base.Tests.{leb, if◌then◌else◌}

module _ {ℓ} {A : Type ℓ} where
  abbrev pub length : List A → ℕ
  length [] = 0
  length (x ∷ xs) = suc (length xs)

  abbrev pub get_elem? : List A → ℕ → Option A
  get_elem? [] i = none
  get_elem? (x ∷ xs) zero = some x
  get_elem? (x ∷ xs) (suc i) = get_elem? xs i

  abbrev pub get_or : List A → ℕ → A → A
  get_or [] i d = d
  get_or (x ∷ xs) zero d = x
  get_or (x ∷ xs) (suc i) d = get_or xs i d

  abbrev pub replicate : ℕ → A → List A
  replicate zero x = []
  replicate (suc n) x = x ∷ replicate n x

  abbrev pub take : ℕ → List A → List A
  take zero xs = []
  take (suc n) [] = []
  take (suc n) (x ∷ xs) = x ∷ take n xs

  abbrev pub drop : ℕ → List A → List A
  drop zero xs = xs
  drop (suc n) [] = []
  drop (suc n) (x ∷ xs) = drop n xs

  abbrev pub All {κ} : (A → Type κ) → List A → Type κ
  All P [] = Unit
  All P (x ∷ xs) = P x × All P xs

  pub length-append : (xs ys : List A) → length (xs ++ ys) ≡ length xs + length ys
  length-append [] ys = omega arith
  length-append (x ∷ xs) ys = omega (arith, length-append xs ys)

  pub All-append {κ} : (P : A → Type κ) (xs ys : List A) → All P xs → All P ys → All P (xs ++ ys)
  All-append P [] ys _ q = q
  All-append P (x ∷ xs) ys (p, ps) q = (p, All-append P xs ys ps q)

module _ {ℓ} {A : Type ℓ} where
  pub take-length_append : (xs ys : List A) → take (length xs) (xs ++ ys) ≡ xs
  take-length_append [] ys = refl
  take-length_append (x ∷ xs) ys = ap (◌∷◌ x) (take-length_append xs ys)

  pub drop-length_append : (xs ys : List A) → drop (length xs) (xs ++ ys) ≡ ys
  drop-length_append [] ys = refl
  drop-length_append (x ∷ xs) ys = drop-length_append xs ys

  pub get_or-append :
      (xs ys : List A) (i : ℕ) (d : A) → get_or (xs ++ ys) (length xs + i) d ≡ get_or ys i d
  get_or-append [] ys i d = ap (λ k. get_or ys k d) (omega arith)
  get_or-append (x ∷ xs) ys i d = ap (λ k. get_or (x ∷ xs ++ ys) k d) e ∙ get_or-append xs ys i d
    where
      e : suc (length xs) + i ≡ suc (length xs + i)
      e = omega arith

  pub take-append-drop : (n : ℕ) (xs : List A) → take n xs ++ drop n xs ≡ xs
  take-append-drop zero xs = refl
  take-append-drop (suc n) [] = refl
  take-append-drop (suc n) (x ∷ xs) = ap (◌∷◌ x) (take-append-drop n xs)

  pub length-take : (n : ℕ) (xs : List A) → length (take n xs) ≡ min n (length xs)
  length-take zero xs = omega arith
  length-take (suc n) [] = omega arith
  length-take (suc n) (x ∷ xs) = omega (arith, length-take n xs)

  pub length-drop : (n : ℕ) (xs : List A) → length (drop n xs) ≡ length xs - n
  length-drop zero xs = omega arith
  length-drop (suc n) [] = omega arith
  length-drop (suc n) (x ∷ xs) = omega (arith, length-drop n xs)

-- Go's `s[lo:hi]`; `none` is the panic for bounds that are out of range.
abbrev pub slice? {ℓ} : {A : Type ℓ} → List A → ℕ → ℕ → Option (List A)
slice? xs lo hi =
    if leb lo hi && leb hi (length xs) then some (take (hi - lo) (drop lo xs)) else none

-- How many entries pass a test.
abbrev pub count_if {ℓ} : {A : Type ℓ} → (A → Bool) → List A → ℕ
count_if p [] = 0
count_if p (x ∷ xs) = let rest = count_if p xs in if p x then suc rest else rest

module _ {ℓ} {A : Type ℓ} where
  pub drop-append : (n : ℕ) (xs ys : List A) → n ≤ length xs → drop n (xs ++ ys) ≡ drop n xs ++ ys
  drop-append zero xs ys h = refl
  drop-append (suc n) [] ys h = absurd (omega arith)
  drop-append (suc n) (x ∷ xs) ys h = drop-append n xs ys (omega arith)

  pub drop-nil : (n : ℕ) → drop {A = A} n [] ≡ []
  drop-nil zero = refl
  drop-nil (suc n) = refl

  pub drop-drop : (m n : ℕ) (xs : List A) → drop m (drop n xs) ≡ drop (n + m) xs
  drop-drop m zero xs = ap (λ (k : ℕ). drop k xs) (omega arith)
  drop-drop m (suc n) [] = drop-nil m ∙ sym (drop-nil (suc n + m))
  drop-drop m (suc n) (x ∷ xs) = drop-drop m n xs ∙ ap (λ (k : ℕ). drop k (x ∷ xs)) e
    where
      e : suc (n + m) ≡ suc n + m
      e = omega arith

  -- The last `n` entries.
  abbrev pub last_n : ℕ → List A → List A
  last_n n xs = drop (length xs - n) xs

pub get_elem?-append_last {ℓ} :
    {A : Type ℓ} (xs : List A) (y : A) → get_elem? (xs ++ y ∷ []) (length xs) ≡ some y
get_elem?-append_last [] y = refl
get_elem?-append_last (x ∷ xs) y = get_elem?-append_last xs y

pub get_elem?-append {ℓ} :
    {A : Type ℓ} (i : ℕ) (xs ys : List A) (x : A)
    → get_elem? xs i ≡ some x
    → get_elem? (xs ++ ys) i ≡ some x
get_elem?-append i [] ys x h = ground arith
get_elem?-append zero (z ∷ xs) ys x h = h
get_elem?-append (suc i) (z ∷ xs) ys x h = get_elem?-append i xs ys x h

-- The entry at one place changed.
abbrev pub at_place {ℓ} : {A : Type ℓ} → ℕ → (A → A) → List A → List A
at_place i f [] = []
at_place zero f (x ∷ xs) = f x ∷ xs
at_place (suc i) f (x ∷ xs) = x ∷ at_place i f xs

module _ {ℓ} {A : Type ℓ} (f : A → A) where
  pub at_place-All {κ} :
      (P : A → Type κ)
      → ((x : A) → P x → P (f x))
      → (i : ℕ) (xs : List A) → All P xs
      → All P (at_place i f xs)
  at_place-All P keep i [] v = tt
  at_place-All P keep zero (x ∷ xs) (v, vs) = (keep x v, vs)
  at_place-All P keep (suc i) (x ∷ xs) (v, vs) = (v, at_place-All P keep i xs vs)

  pub count_if-at_place :
      (p : A → Bool)
      → ((x : A) → p (f x) ≡ true → p x ≡ true)
      → (i : ℕ) (xs : List A) → count_if p (at_place i f xs) ≤ count_if p xs
  count_if-at_place p shrinks i [] = omega arith
  count_if-at_place p shrinks zero (x ∷ xs) = ground (arith, shrinks x)
  count_if-at_place p shrinks (suc i) (x ∷ xs) = ground (arith, count_if-at_place p shrinks i xs)

  -- The last entry stays as it is when one before it changes.
  pub get_elem?-at_place_append :
      (i : ℕ) (xs : List A) (x y : A)
      → get_elem? xs i ≡ some x
      → get_elem? (at_place i f (xs ++ y ∷ [])) (length xs) ≡ some y
  get_elem?-at_place_append i [] x y h = ground arith
  get_elem?-at_place_append zero (z ∷ xs) x y h = get_elem?-append_last xs y
  get_elem?-at_place_append (suc i) (z ∷ xs) x y h = get_elem?-at_place_append i xs x y h

pub replicate-add {ℓ} :
    {A : Type ℓ} (m n : ℕ) (x : A) → replicate m x ++ replicate n x ≡ replicate (m + n) x
replicate-add zero n x = ap (λ (k : ℕ). replicate k x) (omega arith)
replicate-add (suc m) n x =
    ap (◌∷◌ x) (replicate-add m n x) ∙ ap (λ (k : ℕ). replicate k x) (succ_add m n)
  where
    succ_add : (m n : ℕ) → suc (m + n) ≡ suc m + n
    succ_add m n = omega arith
