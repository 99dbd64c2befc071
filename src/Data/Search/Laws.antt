-- ===== src/Data/Search/Laws.antt =====
-- Which rows a search returns, and in which order (data/database.py).
use mathlib.Core.List.{Mem, Perm}
use mcu.Base.{◌↔◌, ◌≡◌, Bool, true, keep, none, List}
use mcu.Base.{string_eq, Ordered}
use mcu.Base.Members.{IsOrderBy, mem-order, mem-keep, mem-of_keep}
use mcu.Models.{SearchCriteria}
use mcu.Data.Rows.{KernelKey, VllmKey, Row, Tables}
use mcu.Data.Search.{NewestFirst, search, search_vllm}
use mcu.Data.Search.Matches.{Matches, selects-Matches}

-- A search returns exactly the rows of the table that match the criteria, the newest first, provided
-- the database's ORDER BY is one.
pub search_lem :
    (order : List (Row KernelKey) → List (Row KernelKey)) (c : SearchCriteria)
    (t : Tables KernelKey)
    → IsOrderBy NewestFirst order
    → ((r : Row KernelKey)
        → Mem r (search order none c t) ↔ (Mem r t.kernels × Matches (λ k. k.cache_dir) c r))
      × Ordered NewestFirst (search order none c t)
unfolding search
search_lem order c t o = (
  λ r. (
    λ m.
        let (m', s) = mem-of_keep _ t.kernels ((mem-order o _).0 m) in
        (m', (selects-Matches _ r c).0 s),
    λ h. (mem-order o _).1 (mem-keep _ t.kernels h.0 ((selects-Matches _ r c).1 h.1)),
  ),
  o.ordered _,
)

-- A search returns the rows of the table that a test for the criteria keeps, each as often.
pub search_kept :
    (order : List (Row KernelKey) → List (Row KernelKey)) (c : SearchCriteria)
    (t : Tables KernelKey)
    → IsOrderBy NewestFirst order
    → (p : Row KernelKey → Bool) × ((r : Row KernelKey)
        → (p r ≡ true) ↔ Matches (λ k. k.cache_dir) c r)
      × Perm (search order none c t) (keep p t.kernels)
unfolding search
search_kept order c t o = (_, λ r. selects-Matches _ r c, o.perm _)

-- A search for vLLM returns exactly the rows of the table that match the criteria, whose directory is
-- the column `vllm_cache_root`, the newest first, provided the database's ORDER BY is one.
pub search_vllm_lem :
    (order : List (Row VllmKey) → List (Row VllmKey)) (c : SearchCriteria) (t : Tables VllmKey)
    → IsOrderBy NewestFirst order
    → ((r : Row VllmKey)
        → Mem r (search_vllm order none c t)
          ↔ (Mem r t.kernels × Matches (λ k. k.vllm_cache_root) c r))
      × Ordered NewestFirst (search_vllm order none c t)
unfolding search_vllm
search_vllm_lem order c t o = (
  λ r. (
    λ m.
        let (m', s) = mem-of_keep _ t.kernels ((mem-order o _).0 m) in
        (m', (selects-Matches _ r c).0 s),
    λ h. (mem-order o _).1 (mem-keep _ t.kernels h.0 ((selects-Matches _ r c).1 h.1)),
  ),
  o.ordered _,
)
