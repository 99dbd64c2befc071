-- ===== src/Index/Service.antt =====
-- `reindex_kernels` of both strategies (strategies/*.py) and `IndexService.reindex`
-- (services/index.py). Each kernel is committed before the next one is read.
pub mod Latest
pub mod Laws
pub mod Vllm
pub mod Listable
pub mod Invariant
use mcu.Base.{ℕ, ◌+◌, String, Option, none, some, List, length, Result, ok, err, Error}
use mcu.Models.{FilePath, Kernel, SearchCriteria}
use mcu.Data.Rows.{Clock, KernelKey, VllmKey, Row, Tables}
use mcu.Data.Upsert.{Fault, insert_kernel, insert_vllm_kernel}
use mcu.Services.Strategy.{path_str}
use mcu.Index.Repository.{Yields, done, raises, yields, VllmKernel}

-- `fault` says which insertions raise.
module _ (fault : Kernel → Fault) (c : Clock) where
  -- `TritonStrategy.reindex_kernels`, which counts from `n` on
  pub reindex_kernels :
      FilePath → Yields Kernel → ℕ → Tables KernelKey → Result ℕ × Tables KernelKey
  unfolding insert_kernel
  reindex_kernels root done n t = (ok n, t)
  reindex_kernels root (raises e) n t = (err e, t)
  reindex_kernels root (yields k ks) n t =
      let (r, t') = insert_kernel (fault k) c k (path_str root) t in
      elim r [ err e ↦ (err e, t') | ok u ↦ reindex_kernels root ks (n + 1) t' ]

  -- `VllmStrategy.reindex_kernels`
  pub reindex_vllm_kernels : Yields VllmKernel → ℕ → Tables VllmKey → Result ℕ × Tables VllmKey
  unfolding insert_vllm_kernel
  reindex_vllm_kernels done n t = (ok n, t)
  reindex_vllm_kernels (raises e) n t = (err e, t)
  reindex_vllm_kernels (yields (h, root, rank, k) ks) n t =
      let (r, t') = insert_vllm_kernel (fault k) c k root h rank t in
      elim r [ err e ↦ (err e, t') | ok u ↦ reindex_vllm_kernels ks (n + 1) t' ]

-- The criteria that `reindex` counts the present kernels by
abbrev pub in_directory : FilePath → SearchCriteria
in_directory root = record {
  name = none;
  cache_dir = some (path_str root);
  backend = none;
  arch = none;
  older_than_timestamp = none;
  younger_than_timestamp = none;
  cache_hit_lower = none;
  cache_hit_higher = none;
}

-- `IndexService.reindex`: the count of the kernels indexed, and of those that were there before.
unfoldable pub reindex :
    {K : Type 0}
    → (SearchCriteria → Tables K → List (Row K))
    → (Tables K → Result ℕ × Tables K)
    → FilePath
    → Tables K
    → Result (ℕ × ℕ) × Tables K
reindex search reindex_with root t =
    let current_kernels = length (search (in_directory root) t) in
    let (r, t') = reindex_with t in
    elim r [ err e ↦ (err e, t') | ok n ↦ (ok (n, current_kernels), t') ]
