-- ===== src/Services/Session.antt =====
-- The part of SQLAlchemy's `Session` that services/prune.py uses. `autoflush` is off
-- (data/db_config.py), so until the commit every query sees the tables as they were stored, and a
-- deleted object stays in the collections that were loaded with its parent.
pub mod Invariant
pub mod Marks
use mcu.Base.{ℕ, String, ◌≡◌, ◌≢◌, Bool, false, not, ◌&&◌, ◌||◌, Option, none, some}
use mcu.Base.{List, [], ◌∷◌, map, keep, length, Result, ok, err, invalid_request, Eq, ◌==◌, nat_eq}
use mcu.Base.{if◌then◌else◌}
use mcu.Data.Rows.{Row, Tables}

-- What is written at the commit: rows to delete, and new values of `total_size`.
pub record Pending (K : Type 0) : Type 0 where
  pub deleted_kernels : List K
  pub deleted_files : List ℕ
  pub sizes : List (K × ℕ)

abbrev pub nothing : {K : Type 0} → Pending K
nothing = record { deleted_kernels = []; deleted_files = []; sizes = [] }

unfoldable pub any_eq {ℓ} : {A : Type ℓ} ⦃e : Eq A⦄ → A → List A → Bool
any_eq a [] = false
any_eq a (x ∷ xs) = x == a || any_eq a xs

module _ {K : Type 0} ⦃e : Eq K⦄ where
  -- the last value given for the key
  unfoldable pub resized : K → List (K × ℕ) → Option ℕ → Option ℕ
  resized k [] old = old
  resized k ((j, n) ∷ sizes) old = resized k sizes (if j == k then some n else old)

  unfoldable pub resize_row : List (K × ℕ) → Row K → Row K
  unfolding resized
  resize_row sizes r = record r {
    columns = record (r.columns) { total_size = resized r.key sizes r.columns.total_size };
  }

  -- `session.commit()`. Deleting a kernel deletes its files (`cascade="all, delete-orphan"`).
  unfoldable pub commit : Pending K → Tables K → Tables K
  unfolding resize_row any_eq
  commit p t = record t {
    kernels = keep (λ r. not (any_eq r.key p.deleted_kernels)) (map (resize_row p.sizes) t.kernels);
    files =
        keep (λ f. not (any_eq f.id p.deleted_files) && not (any_eq f.owner p.deleted_kernels))
          t.files;
  }

module _ {K : Type 0} ⦃e : Eq K⦄ where
  -- The row with a primary key.
  unfoldable pub row_with : K → List (Row K) → Option (Row K)
  row_with k [] = none
  row_with k (r ∷ rows) = if r.key == k then some r else row_with k rows

  -- `session.get(orm_model, key)`: the row with that primary key, where the key has a value for
  -- every column of it. SQLAlchemy raises `InvalidRequestError` for a tuple of another length.
  pub record IsGet (pk : K → List String) (arity : ℕ)
      (get : List String → Tables K → Result (Option (Row K))) : Type 0 where
    pub refuses :
        (key : List String) (t : Tables K) → length key ≢ arity → get key t ≡ err invalid_request
    pub finds : (k : K) (t : Tables K) → get (pk k) t ≡ ok (row_with k t.kernels)
