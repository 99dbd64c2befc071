-- ===== src/Base/Lists.antt =====
-- Lists measured by native numbers, predicates on lists by recursion, and Python's list idioms.
use Prim.Native.Nat.{ℕ, zero, suc, ◌+◌, ◌-◌, ◌≤◌}
use mathlib.Core.Path.{◌≡◌, refl, ap}
use mathlib.Core.Bool.{Bool, true, not}
use mathlib.Core.List.{List, [], ◌∷◌, ◌++◌, map}
use mathlib.Core.Logic.{inl, inr}
use native.Mathlib.Omega.{arith}
use mcu.Base.Tests.{if◌then◌else◌, Bool-cases}

module _ {ℓ} {A : Type ℓ} where
  abbrev pub length : List A → ℕ
  length [] = 0
  length (x ∷ xs) = suc (length xs)

  abbrev pub replicate : ℕ → A → List A
  replicate zero a = []
  replicate (suc n) a = a ∷ replicate n a

  -- [x for x in xs if p(x)]
  abbrev pub keep : (A → Bool) → List A → List A
  keep p [] = []
  keep p (x ∷ xs) = let rest = keep p xs in if p x then x ∷ rest else rest

  -- xs[:-1]
  abbrev pub all_but_last : List A → List A
  all_but_last [] = []
  all_but_last (x ∷ []) = []
  all_but_last (x ∷ y ∷ xs) = x ∷ all_but_last (y ∷ xs)

  abbrev pub last_or : A → List A → A
  last_or d [] = d
  last_or d (x ∷ xs) = last_or x xs

  -- sum(f(x) for x in xs)
  abbrev pub sum_of : (A → ℕ) → List A → ℕ
  sum_of f [] = 0
  sum_of f (x ∷ xs) = f x + sum_of f xs

  abbrev pub concat : List (List A) → List A
  concat [] = []
  concat (xs ∷ xss) = xs ++ concat xss

module _ {ℓ} {A : Type ℓ} where
  pub length-append : (xs ys : List A) → length (xs ++ ys) ≡ length xs + length ys
  length-append [] ys = omega arith
  length-append (x ∷ xs) ys = omega (arith, length-append xs ys)

  pub length-all_but_last : (xs : List A) → length (all_but_last xs) ≡ length xs - 1
  length-all_but_last [] = refl
  length-all_but_last (x ∷ []) = omega arith
  length-all_but_last (x ∷ y ∷ xs) = omega (arith, length-all_but_last (y ∷ xs))

  pub sum_of-append : (f : A → ℕ) (xs ys : List A) → sum_of f (xs ++ ys) ≡ sum_of f xs + sum_of f ys
  sum_of-append f [] ys = omega arith
  sum_of-append f (x ∷ xs) ys = omega (arith, sum_of-append f xs ys)

  pub length-keep-le : (p : A → Bool) (xs : List A) → length (keep p xs) ≤ length xs
  length-keep-le p [] = omega arith
  length-keep-le p (x ∷ xs) = ground (arith, length-keep-le p xs)

  pub length-keep-not :
      (p : A → Bool) (xs : List A)
      → length (keep p xs) + length (keep (λ x. not (p x)) xs) ≡ length xs
  length-keep-not p [] = omega arith
  length-keep-not p (x ∷ xs) = ground (arith, length-keep-not p xs)

module _ {ℓ} {A : Type ℓ} where
  abbrev pub All {κ} : (A → Type κ) → List A → Type κ
  All P [] = Unit
  All P (x ∷ xs) = P x × All P xs

  pub All-keep {κ} : (P : A → Type κ) (p : A → Bool) (xs : List A) → All P xs → All P (keep p xs)
  All-keep P p [] h = tt
  All-keep P p (x ∷ xs) (hx, h) = ground (arith, All-keep P p xs h)

  -- What is kept may use the test that it passed.
  pub All-of_keep {κ κ'} :
      (P : A → Type κ) (Q : A → Type κ') (p : A → Bool)
      → ((x : A) → p x ≡ true → P x → Q x)
      → (xs : List A) → All P xs
      → All Q (keep p xs)
  All-of_keep P Q p f [] h = tt
  All-of_keep P Q p f (x ∷ xs) (hx, h) =
      let rest = All-of_keep P Q p f xs h in
      elim (Bool-cases (p x)) [ inl y ↦ rw y (f x y hx, rest) | inr n ↦ rw n rest ]

  pub All-append {κ} : (P : A → Type κ) (xs ys : List A) → All P xs → All P ys → All P (xs ++ ys)
  All-append P [] ys hx hy = hy
  All-append P (x ∷ xs) ys (h, hx) hy = (h, All-append P xs ys hx hy)

  pub All-of_append {κ} : (P : A → Type κ) (xs ys : List A) → All P (xs ++ ys) → All P xs × All P ys
  All-of_append P [] ys h = (tt, h)
  All-of_append P (x ∷ xs) ys (hx, h) = let (hxs, hys) = All-of_append P xs ys h in ((hx, hxs), hys)

  pub All-map {κ κ'} :
      (P : A → Type κ) (Q : A → Type κ')
      → ((x : A) → P x → Q x)
      → (xs : List A) → All P xs
      → All Q xs
  All-map P Q f [] h = tt
  All-map P Q f (x ∷ xs) (hx, h) = (f x hx, All-map P Q f xs h)

  -- Each element is in the relation to every later one.
  abbrev pub Ordered {κ} : (A → A → Type κ) → List A → Type κ
  Ordered R [] = Unit
  Ordered R (x ∷ xs) = All (R x) xs × Ordered R xs

  pub Ordered-keep {κ} :
      (R : A → A → Type κ) (p : A → Bool) (xs : List A) → Ordered R xs → Ordered R (keep p xs)
  Ordered-keep R p [] h = tt
  Ordered-keep R p (x ∷ xs) (hx, h) = ground (arith, All-keep (R x) p xs hx, Ordered-keep R p xs h)

  pub Ordered-append {κ} :
      (R : A → A → Type κ) (xs ys : List A)
      → Ordered R xs
      → Ordered R ys
      → All (λ x. All (R x) ys) xs
      → Ordered R (xs ++ ys)
  Ordered-append R [] ys hx hy h = hy
  Ordered-append R (x ∷ xs) ys (hx, ox) oy (h, hs) =
      (All-append (R x) xs ys hx h, Ordered-append R xs ys ox oy hs)

module _ {ℓ ι κ} {A : Type ℓ} {B : Type ι} (P : B → Type κ) (f : A → B) where
  pub All-of_map : (xs : List A) → All (λ x. P (f x)) xs → All P (map f xs)
  All-of_map [] h = tt
  All-of_map (x ∷ xs) (hx, h) = (hx, All-of_map xs h)

module _ {ℓ ι} {A : Type ℓ} {B : Type ι} where
  pub length-map : (xs : List A) (g : A → B) → length (map g xs) ≡ length xs
  length-map [] g = refl
  length-map (x ∷ xs) g = ap suc (length-map xs g)
