-- ===== src/Base/Members.antt =====
-- Membership in the lists that the program filters, and what a database's ORDER BY guarantees.
use mathlib.Core.Logic.Or
use mathlib.Core.Logic.{◌↔◌}
use mathlib.Core.HLevel.{×_prop}
use mathlib.Core.Path.{◌≡◌}
use mathlib.Core.Bool.{Bool, true, Bool-set}
use mathlib.Core.List.{
  List, [], ◌∷◌, Mem, Mem-prop, mem-cons, not-mem-nil, mem-cons_of_mem, mem-cons_self, Perm,
}
use mathlib.Core.List.{Nodup, Nodup-cons}
use mathlib.Core.List.Perm
use mcu.Base.Tests.{Bool-cases}
use mcu.Base.Lists.{keep, All, Ordered}
use mathlib.Core.Logic.{inl, inr}

module _ {ℓ} {A : Type ℓ} where
  pub mem-of_keep :
      (p : A → Bool) (xs : List A) {a : A} → Mem a (keep p xs) → Mem a xs × (p a ≡ true)
  mem-of_keep p [] m = absurd (not-mem-nil m)
  mem-of_keep p (x ∷ xs) {a} m = elim (Bool-cases (p x)) [
    | inl yes' ↦
        Or.elim (×_prop Mem-prop (Bool-set _ _)) (mem-cons.0 (rw yes' at m))
          (λ e. rw e (mem-cons_self, yes'))
          (λ h. let (h', q) = mem-of_keep p xs h in (mem-cons_of_mem x h', q))
    | inr no' ↦ let (h', q) = mem-of_keep p xs (rw no' at m) in (mem-cons_of_mem x h', q)
  ]

  pub mem-keep : (p : A → Bool) (xs : List A) {a : A} → Mem a xs → p a ≡ true → Mem a (keep p xs)
  mem-keep p [] m h = m
  mem-keep p (x ∷ xs) {a} m h = elim (Bool-cases (p x)) [
    | inl yes' ↦ rw yes' (
        Or.elim Mem-prop (mem-cons.0 m) (λ e. rw e mem-cons_self)
          (λ m'. mem-cons_of_mem x (mem-keep p xs m' h)))
    | inr no' ↦
        rw no' (
          Or.elim Mem-prop (mem-cons.0 m) (λ e. absurd (cc (e, h, no'))) (λ m'. mem-keep p xs m' h))
  ]

  pub Nodup-keep : (p : A → Bool) (xs : List A) → Nodup xs → Nodup (keep p xs)
  Nodup-keep p [] u = u
  Nodup-keep p (x ∷ xs) u = elim (Bool-cases (p x)) [
    | inl yes' ↦ rw yes' (
        Nodup-cons.1
          (λ m. (Nodup-cons.0 u).0 (mem-of_keep p xs m).0, Nodup-keep p xs (Nodup-cons.0 u).1))
    | inr no' ↦ rw no' (Nodup-keep p xs (Nodup-cons.0 u).1)
  ]

  pub All-of_mem {κ} : (P : A → Type κ) (xs : List A) → ((a : A) → Mem a xs → P a) → All P xs
  All-of_mem P [] h = tt
  All-of_mem P (x ∷ xs) h = (h x mem-cons_self, All-of_mem P xs (λ a m. h a (mem-cons_of_mem x m)))

  pub of_All {κ} :
      (P : A → Type κ)
      → ((a : A) → IsProp (P a))
      → (xs : List A) {a : A} → All P xs
      → Mem a xs
      → P a
  of_All P prop [] h m = absurd (not-mem-nil m)
  of_All P prop (x ∷ xs) {a} (hx, h) m =
      Or.elim (prop a) (mem-cons.0 m) (λ e. rw e hx) (of_All P prop xs h)

-- `ORDER BY`: a permutation of the rows in which each stands before what it may stand before. The
-- order of rows with equal keys is the database's choice.
pub record IsOrderBy {ℓ κ} {A : Type ℓ} (R : A → A → Type κ) (order : List A → List A)
    : Type (ℓ ⊔ κ) where
  pub perm : (xs : List A) → Perm (order xs) xs
  pub ordered : (xs : List A) → Ordered R (order xs)

module _ {ℓ κ} {A : Type ℓ} {R : A → A → Type κ} {order : List A → List A} where
  pub mem-order : IsOrderBy R order → (xs : List A) {a : A} → Mem a (order xs) ↔ Mem a xs
  mem-order o xs = Perm.mem_iff (o.perm xs)
