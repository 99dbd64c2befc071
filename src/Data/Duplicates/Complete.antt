-- ===== src/Data/Duplicates/Complete.antt =====
-- `find_duplicates` (data/database.py) misses none: duplicates with one name and one size come in
-- one set.
use mathlib.Core.List.{Mem, Mem-prop, mem-cons, mem-cons_self, mem-cons_of_mem, not-mem-nil}
use mathlib.Core.Logic.Or
use mathlib.Core.Bool.{Bool-set, false≢true}
use mcu.Base.{ℕ, zero, suc, ◌≤◌, String, ◌≡◌, sym, ap, ◌∙◌, ◌≢◌, true, false, not, arith}
use mcu.Base.{List, [], ◌∷◌, keep, length, length-keep-le, All, ltb, Bool-cases, inl, inr}
use mcu.Base.{◌==◌, ==_self, string_eq, option_eq, nat_eq, pair_eq}
use mcu.Base.Members.{mem-keep, mem-of_keep}
use mcu.Data.Duplicates.{KernelDict, keep_if_many}
use mcu.Data.Duplicates.Sets.{same, classes}

-- No set has both kernels.
abbrev pub Apart : KernelDict → KernelDict → List (List KernelDict) → Type 0
Apart a b = All (λ g. Mem a g → Mem b g → ⊥)

pub two_members :
    (a b : KernelDict) (g : List KernelDict)
    → a.hash_value ≢ b.hash_value
    → Mem a g
    → Mem b g
    → ltb 1 (length g) ≡ true
two_members a b [] n ma mb = absurd (not-mem-nil ma)
two_members a b (x ∷ y ∷ g) n ma mb = ground arith
two_members a b (x ∷ []) n ma mb =
    Or.elim (Bool-set _ _) (mem-cons.0 ma)
      (λ p.
        Or.elim (Bool-set _ _) (mem-cons.0 mb)
          (λ q. absurd (n (ap (λ k. k.hash_value) (p ∙ sym q)))) (λ m. absurd (not-mem-nil m)))
      (λ m. absurd (not-mem-nil m))

module _ (walk : List String → List String) (normal : KernelDict → String) where
  -- The comparison of metadata is that of a normal form.
  abbrev pub ComparesBy : List KernelDict → Type 0
  ComparesBy ks = (x y : KernelDict) → Mem x ks → Mem y ks → same walk x y ≡ (normal x == normal y)

  in_set :
      (k x : KernelDict) (ks : List KernelDict)
      → ComparesBy (k ∷ ks)
      → Mem x (k ∷ ks)
      → (normal k == normal x) ≡ true
      → Mem x (k ∷ keep (same walk k) ks)
  in_set k x ks c m h =
      Or.elim Mem-prop (mem-cons.0 m) (λ e. rw e mem-cons_self)
        (λ m'. mem-cons_of_mem k (mem-keep (same walk k) ks m' (c k x mem-cons_self m ∙ h)))

  in_others :
      (k x : KernelDict) (ks : List KernelDict)
      → ComparesBy (k ∷ ks)
      → Mem x (k ∷ ks)
      → (normal k == normal x) ≡ false
      → Mem x (keep (λ j. not (same walk k j)) ks)
  in_others k x ks c m h =
      Or.elim Mem-prop (mem-cons.0 m)
        (λ e. absurd (false≢true (sym h ∙ ap (λ y. normal k == normal y) e ∙ ==_self (normal k))))
        (λ m'. mem-keep _ ks m' (ap not (c k x mem-cons_self m ∙ h)))

  others-ComparesBy :
      (k : KernelDict) (ks : List KernelDict)
      → ComparesBy (k ∷ ks)
      → ComparesBy (keep (λ j. not (same walk k j)) ks)
  others-ComparesBy k ks c x y mx my =
      c x y (mem-cons_of_mem k (mem-of_keep _ ks mx).0) (mem-cons_of_mem k (mem-of_keep _ ks my).0)

  -- A set of two or more is among those collected, and the later ones are.
  Apart-keep_if_many :
      (a b : KernelDict) (g : List KernelDict) (sets : List (List KernelDict))
      → Apart a b (keep_if_many walk g sets)
      → (ltb 1 (length g) ≡ true → Mem a g → Mem b g → ⊥) × Apart a b sets
  Apart-keep_if_many a b g sets h = elim (Bool-cases (ltb 1 (length g))) [
    | inl y ↦ let (hg, hs) = rw y at h in (λ _. hg, hs)
    | inr n ↦ (λ y. absurd (false≢true (sym n ∙ y)), rw n at h)
  ]

  pub classes-together :
      (a b : KernelDict) (f : ℕ) (ks : List KernelDict)
      → a.hash_value ≢ b.hash_value
      → normal a ≡ normal b
      → length ks ≤ f
      → ComparesBy ks
      → Mem a ks
      → Mem b ks
      → Apart a b (classes walk f ks)
      → ⊥
  unfolding classes
  classes-together a b f [] n e l c ma mb h = absurd (not-mem-nil ma)
  classes-together a b zero (k ∷ ks) n e l c ma mb h = absurd (omega (arith, l))
  classes-together a b (suc f) (k ∷ ks) n e l c ma mb h =
      let set = k ∷ keep (same walk k) ks in
      let others = keep (λ j. not (same walk k j)) ks in
      let (here, later) = Apart-keep_if_many a b set (classes walk f others) h in
      elim (Bool-cases (normal k == normal a)) [
        | inl y ↦
            let ia = in_set k a ks c ma y in
            let ib = in_set k b ks c mb (ap (λ x. normal k == x) (sym e) ∙ y) in
            here (two_members a b set n ia ib) ia ib
        | inr y ↦
            classes-together a b f others n e
              (omega (arith, l, length-keep-le {0} (λ j. not (same walk k j)) ks))
              (others-ComparesBy k ks c) (in_others k a ks c ma y)
              (in_others k b ks c mb (ap (λ x. normal k == x) (sym e) ∙ y)) later
      ]
