-- ===== src/Cli/Index/Laws.antt =====
-- What the index command (cli/main.py) prints and stores in Triton mode.
use mcu.Base.{ℕ, ◌≡◌, refl, ◌∙◌, ap, true, String, Option, List, length, Result, ok, err, ◌+◌}
use mcu.Base.{none, arith}
use mcu.Models.{FilePath, Kernel, SearchCriteria}
use mcu.Data.Rows.{KernelKey, VllmKey, Row, Tables, kernel_key_eq}
use mcu.Data.Upsert.{find_row}
use mcu.Cache.Disk.{Disk, path_exists}
use mcu.Cache.Identifier.{triton, vllm}
use mcu.Index.Repository.{Yields, kernels, vllm_kernels}
use mcu.Index.Service.{reindex, reindex_kernels, reindex_vllm_kernels, in_directory}
use mcu.Index.Service.Latest.{yielded, ending, counted_or, latest, values_or}
use mcu.Data.Rows.{common_kernel_values}
use mcu.Index.Service.Laws.{stored_under, smooth, reindex_kernels_lem}
use mcu.Cli.Commands.{Settings, or_cache_dir, resolve_mode}
use mcu.Cli.Index.{
  IndexEnv, IndexReport, indexed, report_error, report_counts, execute_index, index_with,
}

-- The pair that `reindex` returns, by the count of the strategy.
abbrev paired : Result ℕ → ℕ → Result (ℕ × ℕ)
paired (ok n) before = ok (n, before)
paired (err e) before = err e

reindex_parts :
    {K : Type 0} (search : SearchCriteria → Tables K → List (Row K))
    (reindex_with : Tables K → Result ℕ × Tables K) (root : FilePath) (t : Tables K) (b : Result ℕ)
    → (reindex_with t).0 ≡ b
    → ((reindex search reindex_with root t).0 ≡ paired b (length (search (in_directory root) t)))
      × ((reindex search reindex_with root t).1 ≡ (reindex_with t).1)
unfolding reindex
reindex_parts search reindex_with root t (ok n) e = rw (e, reindex) (refl, refl)
reindex_parts search reindex_with root t (err x) e = rw (e, reindex) (refl, refl)

abbrev pub report_for : Result (Unit {0}) → ℕ → ℕ → IndexReport
report_for (ok u) now before = indexed now before
report_for (err e) now before = report_error e

report_paired :
    (r : Result (Unit {0})) (n before : ℕ)
    → report_counts (paired (counted_or r (0 + n)) before) ≡ report_for r n before
unfolding report_counts
report_paired (ok u) n before = ground arith
report_paired (err e) n before = refl

module _ (s : Settings) (env : IndexEnv) (mode : Option String) (cache_dir : Option FilePath)
    (d : Disk) where
  abbrev pub root_dir : FilePath
  root_dir = or_cache_dir s triton cache_dir

  -- The kernels of the directory, in the order in which they are read.
  abbrev pub walk : Yields Kernel
  walk = kernels env.validate env.files root_dir d

  -- In Triton mode, on a directory that is there and where no insertion raises, the command prints
  -- how many rows of the directory the search found before and how many kernels were read, or the
  -- exception that ended the reading. Also then every kernel read before is stored: each key has the
  -- values of the last kernel under it, any other key what it had, and the other database is as it
  -- was.
  pub execute_index_lem :
      (t : Tables KernelKey) (v : Tables VllmKey) (j : KernelKey)
      → resolve_mode s mode cache_dir d ≡ ok triton
      → path_exists root_dir d ≡ true
      → env.fault ≡ (λ k. none)
      → let (r, t', v') = execute_index s env mode cache_dir d (t, v) in
        (r
          ≡ report_for
              (ending walk)
              (length (yielded walk))
              (length (env.search (in_directory root_dir) t)))
        × (find_row j t'.kernels
            ≡ values_or
                (common_kernel_values env.clock)
                (find_row j t.kernels)
                (latest (stored_under root_dir) j (yielded walk)))
        × (v' ≡ v)
  unfolding execute_index
  execute_index_lem t v j m there f =
      let (counted, stored) = reindex_kernels_lem env.clock root_dir walk 0 t j in
      let (r, kept) =
        reindex_parts env.search
          (reindex_kernels (smooth env.clock root_dir) env.clock root_dir walk 0) root_dir t
          (counted_or (ending walk) (0 + length (yielded walk))) counted in
      rw (m, execute_index, there, index_with, f)
        (
          ap report_counts r
              ∙ report_paired (ending walk) (length (yielded walk))
                  (length (env.search (in_directory root_dir) t)),
          ap (λ (u : Tables KernelKey). find_row j u.kernels) kept ∙ stored,
          refl,
        )

  -- What is stored in Triton mode, whichever insertions raise.
  pub execute_index-tables :
      (t : Tables KernelKey) (v : Tables VllmKey)
      → resolve_mode s mode cache_dir d ≡ ok triton
      → path_exists root_dir d ≡ true
      → (execute_index s env mode cache_dir d (t, v)).1
        ≡ (reindex_kernels env.fault env.clock root_dir walk 0 t).1
  unfolding execute_index
  execute_index-tables t v m there =
      rw (m, execute_index, there, index_with)
        (reindex_parts env.search (reindex_kernels env.fault env.clock root_dir walk 0) root_dir t
          (reindex_kernels env.fault env.clock root_dir walk 0 t).0 refl).1

  -- The same in vLLM mode.
  pub execute_index-vllm_tables :
      (t : Tables KernelKey) (v : Tables VllmKey)
      → resolve_mode s mode cache_dir d ≡ ok vllm
      → let root = or_cache_dir s vllm cache_dir in
        path_exists root d ≡ true
        → (execute_index s env mode cache_dir d (t, v)).2
          ≡ (reindex_vllm_kernels env.fault env.clock
              (vllm_kernels env.validate env.files root d)
              0
              v).1
  unfolding execute_index
  execute_index-vllm_tables t v m there =
      let root = or_cache_dir s vllm cache_dir in
      let indexing =
        reindex_vllm_kernels env.fault env.clock (vllm_kernels env.validate env.files root d) 0 in
      rw (m, execute_index, there, index_with)
        (reindex_parts env.search_vllm indexing root v (indexing v).0 refl).1
