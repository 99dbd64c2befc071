-- ===== src/Tests/Order.antt =====
-- An ORDER BY to run the model with: insertion sort by a test.
use mathlib.Core.List.{Perm}
use mathlib.Core.List.Perm
use mcu.Base.{◌≡◌, Bool, true, false, List, [], ◌∷◌, arith, leb, if◌then◌else◌, All, Ordered}
use mcu.Base.{All-map, Bool-cases, inl, inr}
use mcu.Base.Members.{IsOrderBy}
use mcu.Data.Rows.{Row}
use mcu.Data.Search.{NewestFirst, OldestFirst, sort_key}

module _ {A : Type 0} (before : A → A → Bool) where
  insert : A → List A → List A
  insert x [] = x ∷ []
  insert x (y ∷ ys) = if before x y then x ∷ y ∷ ys else y ∷ insert x ys

  unfoldable pub sort : List A → List A
  unfolding insert
  sort [] = []
  sort (x ∷ xs) = insert x (sort xs)

  insert-perm : (x : A) (ys : List A) → Perm (insert x ys) (x ∷ ys)
  unfolding insert
  insert-perm x [] = Perm.refl (x ∷ [])
  insert-perm x (y ∷ ys) = elim (Bool-cases (before x y)) [
    | inl h ↦ rw h (Perm.refl (x ∷ y ∷ ys))
    | inr h ↦ rw h (Perm.trans (Perm.cons y (insert-perm x ys)) (Perm.swap x y ys))
  ]

  sort-perm : (xs : List A) → Perm (sort xs) xs
  unfolding sort
  sort-perm [] = Perm.refl []
  sort-perm (x ∷ xs) = Perm.trans (insert-perm x (sort xs)) (Perm.cons x (sort-perm xs))

  module _ (R : A → A → Type 0) (yes : (a b : A) → before a b ≡ true → R a b)
      (no : (a b : A) → before a b ≡ false → R b a)
      (trans : (a b c : A) → R a b → R b c → R a c) where
    insert-All : (x z : A) (ys : List A) → R z x → All (R z) ys → All (R z) (insert x ys)
    unfolding insert
    insert-All x z [] h a = (h, tt)
    insert-All x z (y ∷ ys) h (b, a) = elim (Bool-cases (before x y)) [
      | inl t ↦ rw t (h, (b, a))
      | inr t ↦ rw t (b, insert-All x z ys h a)
    ]

    insert-Ordered : (x : A) (ys : List A) → Ordered R ys → Ordered R (insert x ys)
    unfolding insert
    insert-Ordered x [] o = (tt, tt)
    insert-Ordered x (y ∷ ys) (a, o) = elim (Bool-cases (before x y)) [
      | inl h ↦
          rw h ((yes x y h, All-map (R y) (R x) (λ z q. trans x y z (yes x y h) q) ys a), (a, o))
      | inr h ↦ rw h (insert-All x y ys (no x y h) a, insert-Ordered x ys o)
    ]

    sort-Ordered : (xs : List A) → Ordered R (sort xs)
    unfolding sort
    sort-Ordered [] = tt
    sort-Ordered (x ∷ xs) = insert-Ordered x (sort xs) (sort-Ordered xs)

    sort-IsOrderBy : IsOrderBy R sort
    sort-IsOrderBy = record { perm = sort-perm; ordered = sort-Ordered }

module _ {K : Type 0} where
  abbrev newer : Row K → Row K → Bool
  newer a b = leb (sort_key b.columns.modified_time) (sort_key a.columns.modified_time)

  abbrev older : Row K → Row K → Bool
  older a b = leb (sort_key a.columns.modified_time) (sort_key b.columns.modified_time)

  -- ORDER BY modified_time DESC
  abbrev pub newest_first : List (Row K) → List (Row K)
  newest_first = sort newer

  -- ORDER BY modified_time ASC
  abbrev pub oldest_first : List (Row K) → List (Row K)
  oldest_first = sort older

  pub newest_first-IsOrderBy : IsOrderBy (NewestFirst {K = K}) newest_first
  newest_first-IsOrderBy =
      sort-IsOrderBy newer NewestFirst (λ a b h. ground arith) (λ a b h. ground arith)
        (λ a b c h g. omega arith)

  pub oldest_first-IsOrderBy : IsOrderBy (OldestFirst {K = K}) oldest_first
  oldest_first-IsOrderBy =
      sort-IsOrderBy older OldestFirst (λ a b h. ground arith) (λ a b h. ground arith)
        (λ a b c h g. omega arith)
