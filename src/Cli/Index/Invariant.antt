-- ===== src/Cli/Index/Invariant.antt =====
-- The index command (cli/main.py) keeps both databases well formed.
use mcu.Base.{ℕ, String, Option, Result, Result-cases, Bool-cases, Eq, inl, inr}
use mcu.Models.{FilePath}
use mcu.Data.Rows.{KernelKey, VllmKey, Tables, kernel_key_eq, vllm_key_eq}
use mcu.Data.Upsert.Invariant.{IsWellFormed}
use mcu.Cache.Disk.{Disk, path_exists}
use mcu.Cache.Identifier.{triton, vllm}
use mcu.Index.Repository.{kernels, vllm_kernels}
use mcu.Index.Service.{reindex, reindex_kernels, reindex_vllm_kernels}
use mcu.Index.Service.Invariant.{reindex-IsWellFormed, reindex_kernels-IsWellFormed}
use mcu.Index.Service.Invariant.{reindex_vllm_kernels-IsWellFormed}
use mcu.Cli.Commands.{Settings, or_cache_dir, resolve_mode}
use mcu.Cli.Index.{IndexEnv, index_with, execute_index}

index_with-IsWellFormed :
    {K : Type 0} ⦃e : Eq K⦄ (reindex_in : FilePath → Tables K → Result (ℕ × ℕ) × Tables K)
    (root : FilePath) (d : Disk) (t : Tables K)
    → IsWellFormed t
    → IsWellFormed (reindex_in root t).1
    → IsWellFormed (index_with reindex_in root d t).1
unfolding index_with
index_with-IsWellFormed reindex_in root d t h h' = elim (Bool-cases (path_exists root d)) [
  | inl y ↦ rw (index_with, y) h'
  | inr n ↦ rw (index_with, n) h
]

-- Whatever the mode, the directory and the faults.
pub execute_index-IsWellFormed :
    (s : Settings) (env : IndexEnv) (mode : Option String) (cache_dir : Option FilePath) (d : Disk)
    (t : Tables KernelKey) (v : Tables VllmKey)
    → IsWellFormed t
    → IsWellFormed v
    → let (r, t', v') = execute_index s env mode cache_dir d (t, v) in
      IsWellFormed t' × IsWellFormed v'
unfolding execute_index
execute_index-IsWellFormed s env mode cache_dir d t v ht hv =
    let kernels_of = λ (root : FilePath).
      reindex_kernels env.fault env.clock root (kernels env.validate env.files root d) 0 in
    let vllm_kernels_of = λ (root : FilePath).
      reindex_vllm_kernels env.fault env.clock (vllm_kernels env.validate env.files root d) 0 in
    elim (Result-cases (resolve_mode s mode cache_dir d)) [
      | inl (x, p) ↦ rw (execute_index, p) (ht, hv)
      | inr (triton, p) ↦
          let root = or_cache_dir s triton cache_dir in
          rw (execute_index, p)
            (
              index_with-IsWellFormed (λ root. reindex env.search (kernels_of root) root) root d t
                  ht
                  (reindex-IsWellFormed env.search (kernels_of root) root t (
                    reindex_kernels-IsWellFormed env.fault env.clock root
                      (kernels env.validate env.files root d) 0 t ht)),
              hv,
            )
      | inr (vllm, p) ↦
          let root = or_cache_dir s vllm cache_dir in
          rw (execute_index, p)
            (
              ht,
              index_with-IsWellFormed (λ root. reindex env.search_vllm (vllm_kernels_of root) root)
                  root d v hv
                  (reindex-IsWellFormed env.search_vllm (vllm_kernels_of root) root v (
                    reindex_vllm_kernels-IsWellFormed env.fault env.clock
                      (vllm_kernels env.validate env.files root d) 0 v hv)),
            )
    ]
