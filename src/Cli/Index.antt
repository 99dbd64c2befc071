-- ===== src/Cli/Index.antt =====
-- The index command (cli/main.py), with the services that it makes (services/base.py).
pub mod Laws
pub mod Invariant
use mcu.Base.{ℕ, String, Option, List, Result, ok, err, Error, exit, value_error, file_not_found}
use mcu.Base.{if◌then◌else◌}
use mcu.Models.{FilePath, Kernel, SearchCriteria}
use mcu.Data.Rows.{Clock, KernelKey, VllmKey, Row, Tables}
use mcu.Data.Upsert.{Fault}
use mcu.Cache.Disk.{Disk, path_exists}
use mcu.Cache.Identifier.{triton, vllm}
use mcu.Index.Files.{Files}
use mcu.Index.Validator.{Validate}
use mcu.Index.Repository.{kernels, vllm_kernels}
use mcu.Index.Service.{reindex, reindex_kernels, reindex_vllm_kernels}
use mcu.Cli.Commands.{Settings, or_cache_dir, resolve_mode}

-- The two databases, what can be read, pydantic, the clock, and the insertions that raise.
pub record IndexEnv : Type 0 where
  pub search : SearchCriteria → Tables KernelKey → List (Row KernelKey)
  pub search_vllm : SearchCriteria → Tables VllmKey → List (Row VllmKey)
  pub files : Files
  pub validate : Validate
  pub clock : Clock
  pub fault : Kernel → Fault

-- What the command prints: the counts as `now` and `before`, or an error.
pub data IndexReport : Type 0 where
  indexed : ℕ → ℕ → IndexReport
  error unexpected : Error → IndexReport

-- The `except` clauses; here also a `typer.Exit` is an unexpected error.
pub report_error : Error → IndexReport
report_error value_error = error value_error
report_error file_not_found = error file_not_found
report_error e = unexpected e

pub report_counts : Result (ℕ × ℕ) → IndexReport
unfolding report_error
report_counts (ok (now, before)) = indexed now before
report_counts (err e) = report_error e

-- `IndexService` on a directory: the repository is made first, and refuses a missing one.
pub index_with :
    {K : Type 0}
    → (FilePath → Tables K → Result (ℕ × ℕ) × Tables K)
    → FilePath
    → Disk
    → Tables K
    → IndexReport × Tables K
unfolding report_counts
index_with reindex_in root d t =
    if path_exists root d
    then (let (r, t') = reindex_in root t in (report_counts r, t'))
    else (error file_not_found, t)

-- `index`
pub execute_index :
    Settings
    → IndexEnv
    → Option String
    → Option FilePath
    → Disk
    → Tables KernelKey × Tables VllmKey
    → IndexReport × Tables KernelKey × Tables VllmKey
unfolding index_with
execute_index s env mode cache_dir d (t, v) = elim (resolve_mode s mode cache_dir d) [
  | err e ↦ (report_error e, t, v)
  | ok triton ↦
      let (r, t') =
        index_with
          (λ root.
            reindex env.search
              (reindex_kernels env.fault env.clock root (kernels env.validate env.files root d) 0)
              root)
          (or_cache_dir s triton cache_dir) d t in
      (r, t', v)
  | ok vllm ↦
      let (r, v') =
        index_with
          (λ root.
            reindex env.search_vllm
              (reindex_vllm_kernels env.fault env.clock (vllm_kernels env.validate env.files root d)
                0)
              root)
          (or_cache_dir s vllm cache_dir) d v in
      (r, t, v')
]
