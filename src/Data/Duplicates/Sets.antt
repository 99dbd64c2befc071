-- ===== src/Data/Duplicates/Sets.antt =====
-- `_find_duplicates_in_single_group` (data/database.py): the loop with its `processed` flags
-- against repeated partitioning by the first kernel that is left.
use mcu.Base.{ℕ, zero, suc, ◌≤◌, ◌<◌, String, ◌≡◌, refl, ◌∙◌, ap, Bool, true, false, not}
use mcu.Base.{List, [], ◌∷◌, arith, keep, length, replicate, All, All-keep}
use mcu.Base.{Ordered, Ordered-keep, Result, ok, err, ltb, if◌then◌else◌, Bool-cases, inl, inr}
use mcu.Base.{ltb→lt, length-keep-le, is_none}
use mcu.Data.Duplicates.{KernelDict, are_duplicates, mark, collect_sets, keep_if_many}
use mcu.Data.Duplicates.{find_duplicates_in_single_group}

-- The kernel has a metadata object.
abbrev pub HasMetadata : KernelDict → Type 0
HasMetadata k = is_none k.metadata ≡ false

module _ (walk : List String → List String) where
  is_ok_true : Result Bool → Bool
  is_ok_true (ok b) = b
  is_ok_true (err e) = false

  -- What the comparison of two kernels answers, where it answers.
  unfoldable pub same : KernelDict → KernelDict → Bool
  unfolding is_ok_true are_duplicates
  same a b = is_ok_true (are_duplicates walk a.metadata b.metadata)

  -- The reference: the first kernel with its duplicates, then the others, on fuel.
  unfoldable pub classes : ℕ → List KernelDict → List (List KernelDict)
  classes zero ks = []
  classes (suc f) [] = []
  classes (suc f) (k ∷ ks) =
      keep_if_many walk (k ∷ keep (same k) ks) (classes f (keep (λ j. not (same k j)) ks))

  -- the kernels whose flag is not set
  abbrev unmarked : List KernelDict → List Bool → List KernelDict
  unmarked [] flags = []
  unmarked (k ∷ ks) [] = []
  unmarked (k ∷ ks) (p ∷ flags) = if p then unmarked ks flags else k ∷ unmarked ks flags

  are_duplicates-same :
      (a b : KernelDict)
      → HasMetadata a
      → HasMetadata b
      → are_duplicates walk a.metadata b.metadata ≡ ok (same a b)
  unfolding same are_duplicates
  are_duplicates-same a b ha hb = ground arith

  mark_lem :
      (leader : KernelDict) (ks : List KernelDict) (flags : List Bool)
      → HasMetadata leader
      → All HasMetadata ks
      → (flags' : List Bool) × (mark walk leader ks flags
          ≡ ok (keep (same leader) (unmarked ks flags), flags'))
        × (unmarked ks flags' ≡ keep (λ j. not (same leader j)) (unmarked ks flags))
  unfolding mark
  mark_lem leader [] flags hl h = ([], refl, refl)
  mark_lem leader (k ∷ ks) [] hl h = ([], refl, refl)
  mark_lem leader (k ∷ ks) (true ∷ flags) hl (hk, h) =
      let (flags', e, u) = mark_lem leader ks flags hl h in (true ∷ flags', rw e, u)
  mark_lem leader (k ∷ ks) (false ∷ flags) hl (hk, h) =
      let (flags', e, u) = mark_lem leader ks flags hl h in
      let d = are_duplicates-same leader k hl hk in
      elim (Bool-cases (same leader k)) [
        | inl y ↦ (true ∷ flags', rw (d, e, y), rw y u)
        | inr n ↦ (false ∷ flags', rw (d, e, n), rw n (ap (λ l. k ∷ l) u))
      ]

  collect_sets_lem :
      (f : ℕ) (ks : List KernelDict) (flags : List Bool)
      → length (unmarked ks flags) ≤ f
      → All HasMetadata ks
      → collect_sets walk ks flags ≡ ok (classes f (unmarked ks flags))
  unfolding collect_sets classes
  collect_sets_lem zero [] flags l h = refl
  collect_sets_lem (suc f) [] flags l h = refl
  collect_sets_lem zero (k ∷ ks) [] l h = refl
  collect_sets_lem (suc f) (k ∷ ks) [] l h = refl
  collect_sets_lem f (k ∷ ks) (true ∷ flags) l (hk, h) = collect_sets_lem f ks flags l h
  collect_sets_lem zero (k ∷ ks) (false ∷ flags) l h = absurd (omega arith)
  collect_sets_lem (suc f) (k ∷ ks) (false ∷ flags) l (hk, h) =
      let (flags', e, u) = mark_lem k ks flags hk h in
      let b : length (keep (λ j. not (same k j)) (unmarked ks flags)) ≤ f =
        omega (arith, length-keep-le {0} (λ j. not (same k j)) (unmarked ks flags)) in
      rw (e, collect_sets_lem f ks flags' (rw u b) h, u)

  unmarked_all : (ks : List KernelDict) → unmarked ks (replicate (length ks) false) ≡ ks
  unmarked_all [] = refl
  unmarked_all (k ∷ ks) = ap (λ l. k ∷ l) (unmarked_all ks)

  -- Where every kernel has a metadata object, the flagged double loop answers, and with what
  -- repeated partitioning gives: the first kernel left with all its duplicates that are left, then
  -- the same on the others, and only the sets of two or more.
  pub find_duplicates-eq-classes :
      (ks : List KernelDict)
      → All HasMetadata ks
      → find_duplicates_in_single_group walk ks ≡ ok (classes (length ks) ks)
  unfolding find_duplicates_in_single_group
  find_duplicates-eq-classes ks h =
      collect_sets_lem (length ks) ks (replicate (length ks) false) (rw unmarked_all (omega arith))
        h
      ∙ ap (λ l. ok (classes (length ks) l)) (unmarked_all ks)

  abbrev pub SameAsFirst : List KernelDict → Type 0
  SameAsFirst [] = Unit
  SameAsFirst (k ∷ ks) = All (λ j. same k j ≡ true) ks

  -- A set of two or more kernels, all of them duplicates of the first.
  pub record IsDuplicateSet (g : List KernelDict) : Type 0 where
    pub many : 1 < length g
    pub all_same : SameAsFirst g

  All-keep_self : (p : KernelDict → Bool) (ks : List KernelDict) → All (λ k. p k ≡ true) (keep p ks)
  All-keep_self p [] = tt
  All-keep_self p (k ∷ ks) = ground (arith, All-keep_self p ks)

  All-keep_if_many {κ} :
      (P : List KernelDict → Type κ) (g : List KernelDict) (gs : List (List KernelDict))
      → (1 < length g → P g)
      → All P gs
      → All P (keep_if_many walk g gs)
  All-keep_if_many P g gs h hs = elim (Bool-cases (ltb 1 (length g))) [
    | inl y ↦ rw y (h (ltb→lt 1 (length g) y), hs)
    | inr n ↦ rw n hs
  ]

  pub classes-IsDuplicateSet : (f : ℕ) (ks : List KernelDict) → All IsDuplicateSet (classes f ks)
  unfolding classes
  classes-IsDuplicateSet zero ks = tt
  classes-IsDuplicateSet (suc f) [] = tt
  classes-IsDuplicateSet (suc f) (k ∷ ks) =
      All-keep_if_many IsDuplicateSet (k ∷ keep (same k) ks) _
        (λ m. record { many = m; all_same = All-keep_self (same k) ks })
        (classes-IsDuplicateSet f (keep (λ j. not (same k j)) ks))

  -- what holds of every later kernel, and of pairs in the order of the list, holds in the sets
  pub classes-Ordered {κ} :
      (R : KernelDict → KernelDict → Type κ) (f : ℕ) (ks : List KernelDict)
      → Ordered R ks
      → All (Ordered R) (classes f ks)
  unfolding classes
  classes-Ordered R zero ks h = tt
  classes-Ordered R (suc f) [] h = tt
  classes-Ordered R (suc f) (k ∷ ks) (hk, h) =
      All-keep_if_many (Ordered R) (k ∷ keep (same k) ks) _
        (λ m. (All-keep (R k) (same k) ks hk, Ordered-keep R (same k) ks h))
        (classes-Ordered R f (keep (λ j. not (same k j)) ks)
          (Ordered-keep R (λ j. not (same k j)) ks h))

  pub classes-All {κ} :
      (P : KernelDict → Type κ) (f : ℕ) (ks : List KernelDict)
      → All P ks
      → All (All P) (classes f ks)
  unfolding classes
  classes-All P zero ks h = tt
  classes-All P (suc f) [] h = tt
  classes-All P (suc f) (k ∷ ks) (hk, h) =
      All-keep_if_many (All P) (k ∷ keep (same k) ks) _ (λ m. (hk, All-keep P (same k) ks h))
        (classes-All P f (keep (λ j. not (same k j)) ks) (All-keep P (λ j. not (same k j)) ks h))
