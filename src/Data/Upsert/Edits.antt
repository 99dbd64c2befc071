-- ===== src/Data/Upsert/Edits.antt =====
-- What the statements other than the upsert do to the tables (data/db_models.py): an UPDATE of
-- columns, and a DELETE of kernel rows with their files.
use mcu.Base.{◌≡◌, ◌≢◌, sym, ◌∙◌, ap, Bool, true, ◌&&◌, ◌<◌, none}
use mcu.Base.{List, [], ◌∷◌, map, keep, arith, All, All-keep, All-of_keep, All-map, Ordered-keep}
use mcu.Base.{Eq, ◌==◌, ==_iff, Bool-cases, inl, inr}
use mcu.Data.Rows.{Row, FileRow, Tables}
use mcu.Data.Upsert.{find_row}
use mcu.Data.Upsert.Invariant.{IsWellFormed, UniqueKeys, OtherKey, Owned, IdBelow}

module _ {K : Type 0} where
  -- An UPDATE of columns outside the primary key.
  abbrev pub KeepsKeys : (Row K → Row K) → Type 0
  KeepsKeys g = (r : Row K) → (g r).key ≡ r.key

  map-OtherKey :
      (g : Row K → Row K) (k : K) (rows : List (Row K))
      → KeepsKeys g
      → All (OtherKey k) rows
      → All (OtherKey k) (map g rows)
  map-OtherKey g k [] e h = tt
  map-OtherKey g k (r ∷ rows) e (n, h) = (λ p. n (p ∙ e r), map-OtherKey g k rows e h)

  map-UniqueKeys :
      (g : Row K → Row K) (rows : List (Row K))
      → KeepsKeys g
      → UniqueKeys rows
      → UniqueKeys (map g rows)
  map-UniqueKeys g [] e h = tt
  map-UniqueKeys g (r ∷ rows) e (n, h) = (
    map-OtherKey g (g r).key rows e
        (All-map (OtherKey r.key) (OtherKey (g r).key) (λ x m p. m (sym (e r) ∙ p)) rows n),
    map-UniqueKeys g rows e h,
  )

module _ {K : Type 0} ⦃e : Eq K⦄ where
  find_row-map :
      (g : Row K → Row K) (j : K) (rows : List (Row K))
      → KeepsKeys g
      → find_row j rows ≢ none
      → find_row j (map g rows) ≢ none
  unfolding find_row
  find_row-map g j [] k h = h
  find_row-map g j (r ∷ rows) k h = elim (Bool-cases (r.key == j)) [
    | inl y ↦ rw (k r, y) (λ p. cc p)
    | inr n ↦ rw (k r, n) (find_row-map g j rows k (rw n at h))
  ]

  -- An UPDATE keeps the tables well formed.
  pub update-IsWellFormed :
      (g : Row K → Row K) (t : Tables K)
      → KeepsKeys g
      → IsWellFormed t
      → IsWellFormed (record t { kernels = map g t.kernels })
  update-IsWellFormed g t k w = record {
    unique_keys = map-UniqueKeys g t.kernels k w.unique_keys;
    ids_below = w.ids_below;
    unique_ids = w.unique_ids;
    owned =
        All-map (Owned t.kernels) (Owned (map g t.kernels))
          (λ f h. find_row-map g f.owner t.kernels k h) t.files w.owned;
  }

  -- A key that is not deleted keeps its row.
  find_row-keep :
      (stays : K → Bool) (j : K) (rows : List (Row K))
      → stays j ≡ true
      → find_row j (keep (λ r. stays r.key) rows) ≡ find_row j rows
  unfolding find_row
  find_row-keep stays j [] s = ground arith
  find_row-keep stays j (r ∷ rows) s = elim (Bool-cases (r.key == j)) [
    | inl y ↦
        let q : stays r.key ≡ stays j = ap stays ((==_iff r.key j).0 y) in
        ground (arith, find_row-keep stays j rows s)
    | inr n ↦ ground (arith, find_row-keep stays j rows s)
  ]

  -- A DELETE of kernel rows, the files of these rows and any other files keeps the tables well formed.
  pub delete-IsWellFormed :
      (stays : K → Bool) (p : FileRow K → Bool) (t : Tables K)
      → IsWellFormed t
      → IsWellFormed (record t {
        kernels = keep (λ r. stays r.key) t.kernels;
        files = keep (λ f. p f && stays f.owner) t.files;
      })
  delete-IsWellFormed stays p t w = record {
    unique_keys = Ordered-keep (λ a b. a.key ≢ b.key) (λ r. stays r.key) t.kernels w.unique_keys;
    ids_below = All-keep (IdBelow t.next_id) (λ f. p f && stays f.owner) t.files w.ids_below;
    unique_ids = Ordered-keep (λ a b. a.id < b.id) (λ f. p f && stays f.owner) t.files w.unique_ids;
    owned =
        All-of_keep (Owned t.kernels) (Owned (keep (λ r. stays r.key) t.kernels))
          (λ f. p f && stays f.owner)
          (λ f s h. rw (find_row-keep stays f.owner t.kernels (ground arith)) h) t.files w.owned;
  }
