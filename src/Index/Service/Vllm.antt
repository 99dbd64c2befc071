-- ===== src/Index/Service/Vllm.antt =====
-- What indexing a vLLM cache (strategies/vllm_strategy.py) leaves in the tables.
use mathlib.Core.List.{Mem}
use mcu.Base.{ℕ, ◌+◌, ◌≡◌, refl, sym, ap, ◌∙◌, none, some, List, length}
use mcu.Base.{arith, ◌==◌, Option-cases, inl, inr}
use mcu.Base.Members.{IsOrderBy}
use mcu.Models.{FilePath, Kernel}
use mcu.Data.Rows.{Columns, Clock, VllmKey, Row, Tables, common_kernel_values, vllm_key_eq}
use mcu.Data.Upsert.{Fault, insert_vllm_kernel, find_row}
use mcu.Data.Upsert.Laws.{vllm_key_of, insert_vllm_kernel_lookup}
use mcu.Data.Search.{NewestFirst, search_vllm}
use mcu.Data.Search.Laws.{search_vllm_lem}
use mcu.Services.Strategy.{path_str}
use mcu.Index.Repository.{Yields, done, raises, yields, VllmKernel}
use mcu.Index.Service.{reindex_vllm_kernels, in_directory}
use mcu.Index.Service.Latest.{yielded, ending, counted_or, values_or, values_if, values_or-some}
use mcu.Index.Service.Latest.{latest, latest-of_mem, found_row}

-- The key that a kernel is stored under, and its values.
abbrev pub vllm_stored_under : VllmKernel → VllmKey
vllm_stored_under (h, root, rank, k) = vllm_key_of root h k.hash rank

abbrev pub vllm_values : Clock → VllmKernel → Columns
vllm_values c (h, root, rank, k) = common_kernel_values c k

module _ (c : Clock) where
  abbrev vllm_smooth : Kernel → Fault
  vllm_smooth k = none

  -- Where no insertion raises, indexing a vLLM cache commits every kernel that the repository yields,
  -- also where it raises later: each key, of a root, a hash, a rank and the kernel's own key, has the
  -- values of the last kernel under it, and any other key what it had. The count is that of the
  -- kernels.
  pub reindex_vllm_kernels_lem :
      (ys : Yields VllmKernel) (n : ℕ) (t : Tables VllmKey) (j : VllmKey)
      → let r = reindex_vllm_kernels (λ k. none) c ys n t in
        (r.0 ≡ counted_or (ending ys) (n + length (yielded ys)))
        × (find_row j r.1.kernels
            ≡ values_or
                (vllm_values c)
                (find_row j t.kernels)
                (latest vllm_stored_under j (yielded ys)))
  unfolding reindex_vllm_kernels
  reindex_vllm_kernels_lem done n t j = (ground arith, refl)
  reindex_vllm_kernels_lem (raises e) n t j = (refl, refl)
  reindex_vllm_kernels_lem (yields (h, root, rank, k) ks) n t j =
      let t' = (insert_vllm_kernel none c k root h rank t).1 in
      let (e, f) = reindex_vllm_kernels_lem ks (n + 1) t' j in
      let g = (insert_vllm_kernel_lookup c k root h rank t j).0 in
      (
        e ∙ ap (counted_or (ending ks)) (omega arith),
        f ∙ elim (Option-cases (latest vllm_stored_under j (yielded ks))) [
          | inl z ↦ rw z (
              g
              ∙ values_if (vllm_values c) (h, root, rank, k) (find_row j t.kernels)
                  (vllm_key_of root h k.hash rank == j))
          | inr (k', z) ↦ rw z refl
        ],
      )

  -- After indexing a vLLM cache without a fault, a search in the directory of a kernel that was
  -- yielded returns a row with its key.
  pub reindex_vllm_search :
      (order : List (Row VllmKey) → List (Row VllmKey)) (ys : Yields VllmKernel)
      (t : Tables VllmKey) (v : VllmKernel) (dir : FilePath)
      → IsOrderBy NewestFirst order
      → Mem v (yielded ys)
      → (vllm_stored_under v).vllm_cache_root ≡ path_str dir
      → let t' = (reindex_vllm_kernels (λ k. none) c ys 0 t).1 in
        (r : Row VllmKey) × Mem r (search_vllm order none (in_directory dir) t')
        × (r.key ≡ vllm_stored_under v)
  reindex_vllm_search order ys t v dir o m d =
      let t' = (reindex_vllm_kernels (λ k. none) c ys 0 t).1 in
      let j = vllm_stored_under v in
      let (e, f) = reindex_vllm_kernels_lem ys 0 t j in
      let there =
        values_or-some (vllm_values c) (find_row j t.kernels) _
          (latest-of_mem vllm_stored_under v (yielded ys) m) in
      let (r, m', e') = found_row j t'.kernels (λ p. there (sym f ∙ p)) in
      (
        r,
        ((search_vllm_lem order (in_directory dir) t' o).0 r).1 (
          m',
          record {
            cache_dir = ap some (ap (λ x. x.vllm_cache_root) e' ∙ d);
            name = tt;
            backend = tt;
            arch = tt;
            hits_below = tt;
            hits_above = tt;
            older = tt;
            younger = tt;
          },
        ),
        e',
      )
