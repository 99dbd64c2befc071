-- ===== src/Cli/Display/Laws.antt =====
-- Which listings `_display_kernels_table` (cli/main.py) shows.
use mcu.Base.{ℕ, suc, ◌≡◌, refl, ap, some, none, List, [], ◌∷◌, length, All, Result, ok, ◌>>=◌}
use mcu.Base.{inl, inr, Option-cases, String}
use mathlib.Core.Bool.{Bool-set}
use mcu.Base.{◌⊎◌, Bool, true, is_ok, Result-cases}
use mcu.Base.Members.{IsOrderBy, All-of_mem, of_All}
use mcu.Models.{FilePath, Kernel, SearchCriteria}
use mcu.Data.Search.{search, NewestFirst}
use mcu.Data.Search.Laws.{search_lem}
use mcu.Index.Repository.{Yields}
use mcu.Index.Service.{reindex_kernels}
use mcu.Index.Service.Listable.{reindex_kernels-IsListable}
use mcu.Cli.Display.{triton_shown, mod_time_handle}
use mcu.Data.Rows.{Row, Tables, Clock, KernelKey, kernel_key_eq}
use mcu.Data.Upsert.{Fault}
use mcu.Data.Upsert.Listable.{IsListable}
use mcu.Cli.Display.{Line, shown, no_kernels, Shown, lines, display_kernels_table, line}

-- The instant is printed, if only as an invalid date.
abbrev pub reads : (ℕ → Result String) → ℕ → Bool
unfolding mod_time_handle
reads local t = is_ok (mod_time_handle local (some t))

module _ {K : Type 0} (by_mode : Shown K) (local : ℕ → Result String) where
  lines-IsListable :
      (rs : List (Row K))
      → All (IsListable (reads local)) rs
      → (ls : List Line) × (lines by_mode local rs ≡ ok ls) × (length ls ≡ length rs)
  unfolding lines
  lines-IsListable [] h = ([], refl, refl)
  lines-IsListable (r ∷ rs) (h, hs) =
      let (ls, p, q) = lines-IsListable rs hs in
      elim (Option-cases r.columns.total_size) [
        | inl e ↦ absurd (cc (rw e at h))
        | inr (n, e) ↦
            elim (Result-cases (mod_time_handle local (some r.columns.last_access_time))) [
              | inl (x, f) ↦ absurd (cc (rw (e, f) at h))
              | inr (s, f) ↦ (line by_mode local r n s ∷ ls, rw (e, f, p, lines) refl, ap suc q)
            ]
      ]

  display-IsListable :
      (r : Row K) (rs : List (Row K))
      → All (IsListable (reads local)) (r ∷ rs)
      → (ls : List Line) × (display_kernels_table by_mode local (r ∷ rs)
          ≡ ok (shown (length (r ∷ rs)) ls))
        × (length ls ≡ length (r ∷ rs))
  unfolding display_kernels_table
  display-IsListable r rs h =
      let (ls, p, q) = lines-IsListable (r ∷ rs) h in
      (ls, ap (λ m. m >>= (λ ls. ok (shown (length (r ∷ rs)) ls))) p, q)

-- A listing of rows that says that there are none, or how many, with a line for each.
abbrev pub IsListed : (ℕ → Result String) → List (Row KernelKey) → Type 0
IsListed local rows =
    (rows ≡ []) × (display_kernels_table triton_shown local rows ≡ ok no_kernels)
    ⊎ ((ls : List Line) × (display_kernels_table triton_shown local rows
          ≡ ok (shown (length rows) ls))
        × (length ls ≡ length rows))

-- After an index of a directory, whichever insertions raise and however the walk ends, a listing of
-- what any search finds never fails: it says how many kernels there are and has a line for each. The
-- instant of the import must be one that can be printed, and the rows before must have sizes and
-- last accesses that can be printed.
pub listing_after_index :
    (fault : Kernel → Fault) (c : Clock) (root : FilePath) (ys : Yields Kernel)
    (t : Tables KernelKey) (order : List (Row KernelKey) → List (Row KernelKey))
    (criteria : SearchCriteria) (local : ℕ → Result String)
    → reads local c.imported ≡ true
    → All (IsListable (reads local)) t.kernels
    → IsOrderBy NewestFirst order
    → IsListed local (search order none criteria (reindex_kernels fault c root ys 0 t).1)
unfolding display_kernels_table
listing_after_index fault c root ys t order criteria local i h o = shows rows sized
  where
    after : Tables KernelKey
    after = (reindex_kernels fault c root ys 0 t).1

    rows : List (Row KernelKey)
    rows = search order none criteria after

    sized : All (IsListable (reads local)) rows
    sized = All-of_mem (IsListable (reads local)) rows (λ r m.
        of_All (IsListable (reads local)) (λ r. Bool-set _ _) after.kernels
          (reindex_kernels-IsListable (reads local) fault c root i ys 0 t h)
          (((search_lem order criteria after o).0 r).0 m).0)

    shows : (rs : List (Row KernelKey)) → All (IsListable (reads local)) rs → IsListed local rs
    shows [] g = inl (refl, refl)
    shows (r ∷ rs) g = inr (display-IsListable triton_shown local r rs g)
