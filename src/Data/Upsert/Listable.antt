-- ===== src/Data/Upsert/Listable.antt =====
-- Every row that `insert_kernel` (data/database.py) writes has a size.
use mcu.Base.{
  ℕ, ◌≡◌, some, none, List, [], ◌∷◌, All, Eq, ◌==◌, Bool-cases, inl, inr, is_none, true, Bool, not,
  ◌&&◌,
}
use mcu.Base.{String}
use mcu.Models.{Kernel}
use mcu.Data.Rows.{Row, Tables, Columns, Clock, KernelKey, common_kernel_values, kernel_key_eq}
use mcu.Data.Upsert.{insert_or_update, upsert, insert_kernel, Fault}

-- The size of a row is known, and its last access is an instant with a certain property.
abbrev pub IsListable : {K : Type 0} → (ℕ → Bool) → Row K → Type 0
IsListable readable r =
    (not (is_none r.columns.total_size) && readable r.columns.last_access_time) ≡ true

module _ {K : Type 0} ⦃e : Eq K⦄ (readable : ℕ → Bool) where
  insert_or_update-IsListable :
      (k : K) (c : Columns) (rows : List (Row K))
      → (not (is_none c.total_size) && readable c.last_access_time) ≡ true
      → All (IsListable readable) rows
      → All (IsListable readable) (insert_or_update k c rows)
  unfolding insert_or_update
  insert_or_update-IsListable k c [] h a = (h, tt)
  insert_or_update-IsListable k c (r ∷ rows) h (b, a) = elim (Bool-cases (r.key == k)) [
    | inl y ↦ rw y (h, a)
    | inr n' ↦ rw n' (b, insert_or_update-IsListable k c rows h a)
  ]

pub insert_kernel-IsListable :
    (readable : ℕ → Bool) (fault : Fault) (c : Clock) (k : Kernel) (dir : String)
    (t : Tables KernelKey)
    → readable c.imported ≡ true
    → All (IsListable readable) t.kernels
    → All (IsListable readable) ((insert_kernel fault c k dir t).1).kernels
unfolding insert_kernel upsert common_kernel_values
insert_kernel-IsListable readable (some e) c k dir t i h = h
insert_kernel-IsListable readable none c k dir t i h =
    insert_or_update-IsListable readable (record { hash = k.hash; cache_dir = dir })
      (common_kernel_values c (record k { cache_dir = dir })) t.kernels i h
