-- ===== src/Services/Prune/Committed.antt =====
-- What the commit of a session leaves in the tables (services/prune.py, data/db_models.py).
use mathlib.Core.List.{Mem, mem-cons, mem-cons_self, mem-cons_of_mem, not-mem-nil}
use mathlib.Core.Logic.Or
use mathlib.Core.Bool.{false≢true}
use mathlib.Core.Path.{fun_ext}
use mcu.Base.{◌≡◌, refl, sym, ◌≢◌, ◌∙◌, ap, Bool, not, ◌&&◌, ◌||◌, none, some}
use mcu.Base.{List, [], ◌∷◌, ◌++◌, map, keep, arith, Eq, ◌==◌, ==_iff, ==_self, if◌then◌else◌}
use mcu.Base.{Bool-cases, inl, inr, nat_eq}
use mcu.Base.Members.{of_All}
use mcu.Data.Rows.{Row, FileRow, Tables}
use mcu.Data.Upsert.{files_of}
use mcu.Data.Upsert.Invariant.{UniqueKeys}
use mcu.Services.Session.{nothing, commit, any_eq, row_with, resize_row}

pub any_eq-append {ℓ} :
    {A : Type ℓ} ⦃e : Eq A⦄ (a : A) (xs ys : List A)
    → any_eq a (xs ++ ys) ≡ (any_eq a xs || any_eq a ys)
unfolding any_eq
any_eq-append a [] ys = refl
any_eq-append a (x ∷ xs) ys = ground (arith, any_eq-append a xs ys)

module _ {K : Type 0} ⦃e : Eq K⦄ where
  map-resize_nil : (rows : List (Row K)) → map (resize_row []) rows ≡ rows
  unfolding commit
  map-resize_nil [] = refl
  map-resize_nil (r ∷ rows) = ap (λ l. r ∷ l) (map-resize_nil rows)

  row_with-keep :
      (gone : List K) (j : K) (rows : List (Row K))
      → row_with j (keep (λ r. not (any_eq r.key gone)) rows)
        ≡ (if any_eq j gone then none else row_with j rows)
  unfolding row_with
  row_with-keep gone j [] = ground arith
  row_with-keep gone j (r ∷ rows) = elim (Bool-cases (r.key == j)) [
    | inl y ↦
        let p : r.key ≡ j = (==_iff r.key j).0 y in
        let q : any_eq r.key gone ≡ any_eq j gone = ap (λ k. any_eq k gone) p in
        ground (arith, row_with-keep gone j rows)
    | inr n ↦ ground (arith, row_with-keep gone j rows)
  ]

  files_of-keep :
      (p : FileRow K → Bool) (gone : List K) (j : K) (files : List (FileRow K))
      → files_of j (keep (λ f. p f && not (any_eq f.owner gone)) files)
        ≡ (if any_eq j gone then [] else files_of j (keep p files))
  files_of-keep p gone j [] = ground arith
  files_of-keep p gone j (f ∷ files) = elim (Bool-cases (f.owner == j)) [
    | inl y ↦
        let q : any_eq f.owner gone ≡ any_eq j gone =
          ap (λ k. any_eq k gone) ((==_iff f.owner j).0 y) in
        ground (arith, files_of-keep p gone j files)
    | inr n ↦ ground (arith, files_of-keep p gone j files)
  ]

  keep-true : (files : List (FileRow K)) → keep (λ f. not (any_eq f.id [])) files ≡ files
  unfolding any_eq
  keep-true [] = refl
  keep-true (f ∷ files) = ap (λ l. f ∷ l) (keep-true files)

  -- A session that has deleted kernels only: they are gone with their files, the rest is as before.
  pub commit-deleted :
      (gone : List K) (t : Tables K) (j : K)
      → let t' = commit (record { deleted_kernels = gone; deleted_files = []; sizes = [] }) t in
        (row_with j t'.kernels ≡ (if any_eq j gone then none else row_with j t.kernels))
        × (files_of j t'.files ≡ (if any_eq j gone then [] else files_of j t.files))
  unfolding commit
  commit-deleted gone t j = (
    rw map-resize_nil (row_with-keep gone j t.kernels),
    files_of-keep (λ f. not (any_eq f.id [])) gone j t.files
        ∙ ap (λ l. if any_eq j gone then [] else files_of j l) (keep-true t.files),
  )

  -- A session in which nothing was marked commits nothing.
  pub commit-nothing : (t : Tables K) → commit nothing t ≡ t
  unfolding commit
  commit-nothing t = cc (map-resize_nil t.kernels, keep_rows t.kernels, keep_files t.files)
    where
      keep_rows : (rows : List (Row K)) → keep (λ r. not (any_eq r.key [])) rows ≡ rows
      keep_rows [] = refl
      keep_rows (r ∷ rows) = ap (λ l. r ∷ l) (keep_rows rows)

      keep_files :
          (files : List (FileRow K))
          → keep (λ f. not (any_eq f.id []) && not (any_eq f.owner [])) files ≡ files
      keep_files [] = refl
      keep_files (f ∷ files) = ap (λ l. f ∷ l) (keep_files files)

  pub row_with-of_mem : (rows : List (Row K)) {r : Row K} → Mem r rows → row_with r.key rows ≢ none
  unfolding row_with
  row_with-of_mem [] m = absurd (not-mem-nil m)
  row_with-of_mem (s ∷ rows) {r} m = elim (Bool-cases (s.key == r.key)) [
    | inl y ↦ rw (y, row_with) (λ p. cc p)
    | inr n ↦
        rw (n, row_with)
          (Or.elim (λ f g. fun_ext (λ x. absurd (f x))) (mem-cons.0 m)
            (λ p. absurd (false≢true (cc (n, ap (λ x. x.key) p, ==_self r.key))))
            (row_with-of_mem rows))
  ]

  pub row_with-key :
      (k : K) (rows : List (Row K)) (r : Row K) → row_with k rows ≡ some r → r.key ≡ k
  unfolding row_with
  row_with-key k [] r h = cc
  row_with-key k (s ∷ rows) r h = elim (Bool-cases (s.key == k)) [
    | inl y ↦
        let p : some s ≡ some r = rw (y, row_with) at h in
        let q : s ≡ r = cc p in ap (λ x. x.key) (sym q) ∙ (==_iff s.key k).0 y
    | inr n ↦ row_with-key k rows r (rw (n, row_with) at h)
  ]

  pub row_with-mem :
      (k : K) (rows : List (Row K)) (r : Row K) → row_with k rows ≡ some r → Mem r rows
  unfolding row_with
  row_with-mem k [] r h = cc
  row_with-mem k (s ∷ rows) r h = elim (Bool-cases (s.key == k)) [
    | inl y ↦
        let p : some s ≡ some r = rw (y, row_with) at h in
        let q : s ≡ r = cc p in rw q mem-cons_self
    | inr n ↦ mem-cons_of_mem s (row_with-mem k rows r (rw (n, row_with) at h))
  ]

  never_prop : (k : K) (r : Row K) → IsProp (k ≢ r.key)
  never_prop k r f g = fun_ext (λ x. absurd (f x))

  -- Where keys are unique, a row is the one under its key.
  pub row_with_unique :
      (rows : List (Row K)) {r : Row K}
      → UniqueKeys rows
      → Mem r rows
      → row_with r.key rows ≢ some r
      → ⊥
  unfolding row_with
  row_with_unique [] u m h = absurd (not-mem-nil m)
  row_with_unique (s ∷ rows) {r} (n, u) m h = elim (Bool-cases (s.key == r.key)) [
    | inl y ↦
        let p : s.key ≡ r.key = (==_iff s.key r.key).0 y in
        Or.elim (λ a b. absurd a) (mem-cons.0 m) (λ q. h (rw (y, row_with) (ap some (sym q))))
          (λ m'. of_All (λ (b : Row K). s.key ≢ b.key) (never_prop s.key) rows n m' p)
    | inr k ↦
        Or.elim (λ a b. absurd a) (mem-cons.0 m)
          (λ q. absurd (false≢true (cc (k, ap (λ x. x.key) q, ==_self r.key))))
          (λ m'. row_with_unique rows u m' (λ q. h (rw (k, row_with) q)))
  ]
