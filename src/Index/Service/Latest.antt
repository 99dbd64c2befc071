-- ===== src/Index/Service/Latest.antt =====
-- What `reindex_kernels` of a strategy (strategies/*.py) goes through, and the last kernel that it
-- stores under a key.
use mathlib.Core.List.{Mem, mem-cons, mem-cons_self, mem-cons_of_mem, not-mem-nil}
use mathlib.Core.Logic.Or
use mathlib.Core.Path.{fun_ext}
use mcu.Base.{ℕ, ◌≡◌, refl, ◌≢◌, Bool, true, false, Option, none, some, List, [], ◌∷◌}
use mcu.Base.{Result, ok, err, Eq, ◌==◌, ==_iff, ==_self, if◌then◌else◌}
use mcu.Base.{Bool-cases, Option-cases, inl, inr}
use mcu.Data.Rows.{Columns, Row}
use mcu.Data.Upsert.{find_row}
use mcu.Index.Repository.{Yields, done, raises, yields}

-- What a generator yields before it ends or raises, and how it ends.
abbrev pub yielded : {A : Type 0} → Yields A → List A
yielded done = []
yielded (raises e) = []
yielded (yields a as') = a ∷ yielded as'

abbrev pub ending : {A : Type 0} → Yields A → Result (Unit {0})
ending done = ok tt
ending (raises e) = err e
ending (yields a as') = ending as'

abbrev pub counted_or : Result (Unit {0}) → ℕ → Result ℕ
counted_or (ok u) n = ok n
counted_or (err e) n = err e

module _ {A : Type 0} (values : A → Columns) where
  -- The values of what is stored last, or the old ones.
  abbrev pub values_or : Option Columns → Option A → Option Columns
  values_or old none = old
  values_or old (some a) = some (values a)

  pub values_if :
      (a : A) (old : Option Columns) (b : Bool)
      → (if b then some (values a) else old) ≡ values_or old (if b then some a else none)
  values_if a old true = refl
  values_if a old false = refl

  pub values_or-some : (old : Option Columns) (o : Option A) → o ≢ none → values_or old o ≢ none
  values_or-some old none h = absurd (h refl)
  values_or-some old (some a) h = λ p. cc p

module _ {A K : Type 0} ⦃e : Eq K⦄ (key : A → K) where
  -- The last that goes under a key.
  abbrev pub latest : K → List A → Option A
  latest j [] = none
  latest j (a ∷ as') = elim (latest j as') [
    | some b ↦ some b
    | none ↦ if key a == j then some a else none
  ]

  -- What was yielded has a latest one under its key.
  pub latest-of_mem : (a : A) (as' : List A) → Mem a as' → latest (key a) as' ≢ none
  latest-of_mem a [] m = absurd (not-mem-nil m)
  latest-of_mem a (x ∷ as') m = elim (Option-cases (latest (key a) as')) [
    | inr (b, z) ↦ rw z (λ p. cc p)
    | inl z ↦ rw z (
        Or.elim (λ f g. fun_ext (λ x. absurd (f x))) (mem-cons.0 m)
          (λ p. rw (← p, ==_self (key a)) (λ q. cc q)) (λ m'. absurd (latest-of_mem a as' m' z)))
  ]

module _ {K : Type 0} ⦃e : Eq K⦄ where
  pub found_row :
      (j : K) (rows : List (Row K))
      → find_row j rows ≢ none
      → (r : Row K) × Mem r rows × (r.key ≡ j)
  unfolding find_row
  found_row j [] h = absurd (h refl)
  found_row j (r ∷ rows) h = elim (Bool-cases (r.key == j)) [
    | inl y ↦ (r, mem-cons_self, (==_iff r.key j).0 y)
    | inr n ↦
        let (r', m, p) = found_row j rows (rw (n, find_row) at h) in (r', mem-cons_of_mem r m, p)
  ]
