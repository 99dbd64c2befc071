-- ===== src/Base/Family.antt =====
-- What each thread has, as a function of its number, and sums over the first threads.
use Prim.Native.Nat.{ℕ, zero, suc, ◌+◌, ◌*◌, ◌≤◌, ◌<◌}
use mathlib.Core.Path.{◌≡◌, refl}
use mathlib.Core.Logic.{inl, inr}
use native.Mathlib.Omega.{arith}
use mcu.Base.Tests.{nat_eqb, if◌then◌else◌, ltb, ltb→lt, Bool-cases}

-- The family `f` with `a` for the thread `i`.
abbrev pub set_at {ℓ} : {A : Type ℓ} → ℕ → A → (ℕ → A) → ℕ → A
set_at i a f j = if nat_eqb i j then a else f j

module _ {ℓ} {A : Type ℓ} (weight : A → ℕ) where
  pub weigh : ℕ → (ℕ → A) → ℕ
  weigh zero f = 0
  weigh (suc n) f = weigh n f + weight (f n)

  weigh-beyond : (n i : ℕ) (a : A) (f : ℕ → A) → n ≤ i → weigh n (set_at i a f) ≡ weigh n f
  unfolding weigh
  weigh-beyond zero i a f h = refl
  weigh-beyond (suc n) i a f h = ground (arith, weigh-beyond n i a f)

  pub weigh-set_at :
      (n i : ℕ) (a : A) (f : ℕ → A)
      → i < n
      → weigh n (set_at i a f) + weight (f i) ≡ weigh n f + weight a
  unfolding weigh
  weigh-set_at zero i a f h = absurd (omega arith)
  weigh-set_at (suc n) i a f h = elim (Bool-cases (ltb i n)) [
    | inl y ↦ ground (arith, weigh-set_at n i a f)
    | inr last ↦ ground (arith, weigh-beyond n i a f)
  ]

  -- A sum that is positive has a term that is.
  pub weigh-positive : (n : ℕ) (f : ℕ → A) → 0 < weigh n f → (i : ℕ) × (i < n) × (0 < weight (f i))
  unfolding weigh
  weigh-positive zero f h = absurd (omega arith)
  weigh-positive (suc n) f h = elim (Bool-cases (ltb 0 (weight (f n)))) [
    | inl y ↦ (n, omega arith, ltb→lt 0 (weight (f n)) y)
    | inr no_weight ↦ let (i, lt, pos) = weigh-positive n f (ground arith) in (i, omega arith, pos)
  ]

  pub weigh-const : (n c : ℕ) (a : A) → weight a ≡ c → weigh n (λ i. a) ≡ n * c
  unfolding weigh
  weigh-const zero c a h = grind arith
  weigh-const (suc n) c a h = grind (arith, weigh-const n c a h)

  pub weight-le-weigh : (n : ℕ) (f : ℕ → A) (i : ℕ) → i < n → weight (f i) ≤ weigh n f
  unfolding weigh
  weight-le-weigh zero f i h = absurd (omega arith)
  weight-le-weigh (suc n) f i h = elim (Bool-cases (ltb i n)) [
    | inl y ↦ omega (arith, weight-le-weigh n f i (ltb→lt i n y))
    | inr last ↦ let same : i ≡ n = ground arith in rw same (omega arith)
  ]

  pub weigh-zero : (n : ℕ) (f : ℕ → A) → ((i : ℕ) → i < n → weight (f i) ≡ 0) → weigh n f ≡ 0
  unfolding weigh
  weigh-zero zero f h = refl
  weigh-zero (suc n) f h =
      omega (arith, weigh-zero n f (λ i lt. h i (omega arith)), h n (omega arith))
