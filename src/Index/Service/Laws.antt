-- ===== src/Index/Service/Laws.antt =====
-- What indexing a cache directory (strategies/triton_strategy.py) leaves in the tables.
use mathlib.Core.List.{Mem}
use mcu.Base.{ℕ, ◌+◌, ◌≡◌, refl, sym, ap, ◌∙◌, none, some, List, length}
use mcu.Base.{◌==◌, arith, Option-cases, inl, inr}
use mcu.Base.Members.{IsOrderBy}
use mcu.Models.{FilePath, Kernel}
use mcu.Data.Rows.{Clock, KernelKey, Row, Tables, common_kernel_values, kernel_key_eq}
use mcu.Data.Upsert.{Fault, insert_kernel, find_row}
use mcu.Data.Upsert.Laws.{key_of, insert_kernel_lookup}
use mcu.Data.Search.{NewestFirst, search}
use mcu.Data.Search.Laws.{search_lem}
use mcu.Services.Strategy.{path_str}
use mcu.Index.Repository.{Yields, done, raises, yields}
use mcu.Index.Service.{reindex_kernels, in_directory}
use mcu.Index.Service.Latest.{yielded, ending, counted_or, values_or, values_if, values_or-some}
use mcu.Index.Service.Latest.{latest, latest-of_mem, found_row}

-- The key that a kernel of the directory is stored under.
abbrev pub stored_under : FilePath → Kernel → KernelKey
stored_under root k = key_of k.hash (path_str root)

module _ (c : Clock) (root : FilePath) where
  -- no insertion raises
  abbrev pub smooth : Kernel → Fault
  smooth k = none

  -- Where no insertion raises, indexing commits every kernel that the repository yields, also where
  -- it raises later: each key has the values of the last kernel that goes under it, and any other key
  -- what it had. The count is that of the kernels.
  pub reindex_kernels_lem :
      (ys : Yields Kernel) (n : ℕ) (t : Tables KernelKey) (j : KernelKey)
      → let r = reindex_kernels smooth c root ys n t in
        (r.0 ≡ counted_or (ending ys) (n + length (yielded ys)))
        × (find_row j r.1.kernels
            ≡ values_or
                (common_kernel_values c)
                (find_row j t.kernels)
                (latest (stored_under root) j (yielded ys)))
  unfolding reindex_kernels
  reindex_kernels_lem done n t j = (ground arith, refl)
  reindex_kernels_lem (raises e) n t j = (refl, refl)
  reindex_kernels_lem (yields k ks) n t j =
      let t' = (insert_kernel none c k (path_str root) t).1 in
      let (e, f) = reindex_kernels_lem ks (n + 1) t' j in
      let g = (insert_kernel_lookup c k (path_str root) t j).0 in
      (
        e ∙ ap (counted_or (ending ks)) (omega arith),
        f ∙ elim (Option-cases (latest (stored_under root) j (yielded ks))) [
          | inl z ↦ rw z (
              g
              ∙ values_if (common_kernel_values c) k (find_row j t.kernels)
                  (stored_under root k == j))
          | inr (k', z) ↦ rw z refl
        ],
      )

module _ (c : Clock) (root : FilePath) where
  -- After indexing without a fault, a search in the directory returns, for each kernel that the
  -- repository yielded, a row with its hash.
  pub reindex_search :
      (order : List (Row KernelKey) → List (Row KernelKey)) (ys : Yields Kernel)
      (t : Tables KernelKey) (k : Kernel)
      → IsOrderBy NewestFirst order
      → Mem k (yielded ys)
      → let t' = (reindex_kernels (smooth c root) c root ys 0 t).1 in
        (r : Row KernelKey) × Mem r (search order none (in_directory root) t')
        × (r.key ≡ key_of k.hash (path_str root))
  reindex_search order ys t k o m =
      let t' = (reindex_kernels (smooth c root) c root ys 0 t).1 in
      let j = key_of k.hash (path_str root) in
      let (e, f) = reindex_kernels_lem c root ys 0 t j in
      let there =
        values_or-some (common_kernel_values c) (find_row j t.kernels) _
          (latest-of_mem (stored_under root) k (yielded ys) m) in
      let (r, m', e') = found_row j t'.kernels (λ p. there (sym f ∙ p)) in
      (
        r,
        ((search_lem order (in_directory root) t' o).0 r).1 (
          m',
          record {
            cache_dir = ap some (ap (λ x. x.cache_dir) e');
            name = tt;
            backend = tt;
            arch = tt;
            hits_below = tt;
            hits_above = tt;
            older = tt;
            younger = tt;
          },
        ),
        e',
      )
