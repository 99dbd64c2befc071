-- ===== src/Index/Service/Invariant.antt =====
-- Indexing (services/index.py, strategies/*.py) keeps the tables well formed, in either mode.
use mcu.Base.{ℕ, ◌+◌, Result, Result-cases, inl, inr, List, Eq}
use mcu.Models.{FilePath, Kernel, SearchCriteria}
use mcu.Data.Rows.{Clock, KernelKey, VllmKey, Row, Tables, kernel_key_eq, vllm_key_eq}
use mcu.Data.Upsert.{Fault, insert_kernel, insert_vllm_kernel}
use mcu.Data.Upsert.Invariant.{IsWellFormed}
use mcu.Data.Upsert.Invariant.{insert_kernel-IsWellFormed, insert_vllm_kernel-IsWellFormed}
use mcu.Services.Strategy.{path_str}
use mcu.Index.Repository.{Yields, done, raises, yields, VllmKernel}
use mcu.Index.Service.{reindex, reindex_kernels, reindex_vllm_kernels}

module _ (fault : Kernel → Fault) (c : Clock) where
  -- Indexing keeps the tables well formed, whichever insertions raise and however the walk ends.
  pub reindex_kernels-IsWellFormed :
      (root : FilePath) (ys : Yields Kernel) (n : ℕ) (t : Tables KernelKey)
      → IsWellFormed t
      → IsWellFormed (reindex_kernels fault c root ys n t).1
  unfolding reindex_kernels
  reindex_kernels-IsWellFormed root done n t w = w
  reindex_kernels-IsWellFormed root (raises e) n t w = w
  reindex_kernels-IsWellFormed root (yields k ks) n t w =
      let w' = insert_kernel-IsWellFormed (fault k) c k (path_str root) t w in
      elim (Result-cases (insert_kernel (fault k) c k (path_str root) t).0) [
        | inl (e, p) ↦ rw (reindex_kernels, p) w'
        | inr (u, p) ↦ rw (reindex_kernels, p) (reindex_kernels-IsWellFormed root ks (n + 1) _ w')
      ]

  -- The same for the vLLM tables.
  pub reindex_vllm_kernels-IsWellFormed :
      (ys : Yields VllmKernel) (n : ℕ) (t : Tables VllmKey)
      → IsWellFormed t
      → IsWellFormed (reindex_vllm_kernels fault c ys n t).1
  unfolding reindex_vllm_kernels
  reindex_vllm_kernels-IsWellFormed done n t w = w
  reindex_vllm_kernels-IsWellFormed (raises e) n t w = w
  reindex_vllm_kernels-IsWellFormed (yields (h, root, rank, k) ks) n t w =
      let w' = insert_vllm_kernel-IsWellFormed (fault k) c k root h rank t w in
      elim (Result-cases (insert_vllm_kernel (fault k) c k root h rank t).0) [
        | inl (e, p) ↦ rw (reindex_vllm_kernels, p) w'
        | inr (u, p) ↦
            rw (reindex_vllm_kernels, p) (reindex_vllm_kernels-IsWellFormed ks (n + 1) _ w')
      ]

-- `IndexService.reindex` stores what the strategy does.
pub reindex-IsWellFormed :
    {K : Type 0} ⦃e : Eq K⦄ (search : SearchCriteria → Tables K → List (Row K))
    (reindex_with : Tables K → Result ℕ × Tables K) (root : FilePath) (t : Tables K)
    → IsWellFormed (reindex_with t).1
    → IsWellFormed (reindex search reindex_with root t).1
unfolding reindex
reindex-IsWellFormed search reindex_with root t h = elim (Result-cases (reindex_with t).0) [
  | inl (x, p) ↦ rw (reindex, p) h
  | inr (n, p) ↦ rw (reindex, p) h
]
