-- ===== src/Tests/VllmIndex.antt =====
-- Indexing and listing a vLLM cache with one kernel (cli/main.py).
use mathlib.Core.List.{Mem, mem-cons_self}
use mcu.Base.{◌≡◌, refl, true, none, some, List, [], ◌∷◌, ◌++◌, if◌then◌else◌, ◌==◌, string_eq}
use mcu.Base.{list_eq}
use mcu.Base.Dict.{get}
use mcu.Base.Text.{suffix, ends_with}
use mcu.Models.{FilePath}
use mcu.Data.Rows.{VllmKey, Row, vllm_key_eq}
use mcu.Cache.Disk.{Disk, dir, file, path_exists, node_at, iterdir}
use mcu.Services.Strategy.{path_str}
use mcu.Index.Files.{Files, parts}
use mcu.Index.Validator.{deserialize_kernel}
use mcu.Index.Repository.{VllmKernel, vllm_kernels, kernels}
use mcu.Index.Service.Latest.{yielded}
use mcu.Index.Service.Vllm.{vllm_stored_under}
use mcu.Cli.Commands.{table}
use mcu.Program.{State, Run, vllm_report, run_index, run_list}
use mcu.Program.IndexedVllm.{all_vllm_in, list_after_vllm_index}
use mcu.Program.Unopened.{unopened}
use mcu.Tests.Order.{newest_first, newest_first-IsOrderBy}
use mcu.Tests.Samples.{root}
use mcu.Tests.Services.{env, vllm_env}
use mcu.Tests.Index.{metadata, group, validate, k1}
use mcu.Tests.IndexCommand.{index_env}
use mcu.Tests.Cli.{settings}

abbrev rank_cache : FilePath
rank_cache = "c" ∷ "torch_compile_cache" ∷ "v" ∷ "rank_0_0" ∷ "triton_cache" ∷ []

abbrev kernel_path : FilePath → FilePath
kernel_path rest = rank_cache ++ ("h1" ∷ rest)

abbrev vllm_cache : Disk
vllm_cache =
    ("c" ∷ [], dir)
    ∷ ("c" ∷ "torch_compile_cache" ∷ [], dir)
    ∷ ("c" ∷ "torch_compile_cache" ∷ "v" ∷ [], dir)
    ∷ ("c" ∷ "torch_compile_cache" ∷ "v" ∷ "rank_0_0" ∷ [], dir)
    ∷ (rank_cache, dir)
    ∷ (kernel_path [], dir)
    ∷ (kernel_path ("__grp__add.json" ∷ []), file 7)
    ∷ (kernel_path ("add.json" ∷ []), file 7)
    ∷ []

abbrev vllm_files : Files
vllm_files = record {
  read_json = λ p.
      if p == kernel_path ("add.json" ∷ [])
      then some metadata
      else if p == kernel_path ("__grp__add.json" ∷ [])
      then some group
      else none;
  mtime = λ p. some 10;
  stat_size = λ p. some 7;
  cwd = [];
}

abbrev run : Run
run = record {
  settings = settings;
  index_env = record index_env { files = vllm_files };
  env = env;
  vllm_env = vllm_env;
}

abbrev first_or : VllmKernel → List VllmKernel → VllmKernel
first_or v [] = v
first_or v (x ∷ vs) = x

-- The kernel that is read.
abbrev read : VllmKernel
read = first_or ("", "", "", k1) (yielded (vllm_kernels validate vllm_files root vllm_cache))

read_there : Mem read (yielded (vllm_kernels validate vllm_files root vllm_cache))
unfolding vllm_kernels kernels deserialize_kernel node_at iterdir parts get suffix ends_with
    path_str
read_there = mem-cons_self

cache_is_there : path_exists root vllm_cache ≡ true
unfolding node_at
cache_is_there = refl

abbrev start : State
start = unopened vllm_cache []

list_after_vllm_index_example :
    (rows : List (Row VllmKey)) × ((run_list run
        (all_vllm_in root)
        (run_index run (some "vllm") (some root) start).1).0
      ≡ vllm_report (table rows))
    × (row : Row VllmKey) × Mem row rows
    × (row.key ≡ vllm_stored_under read)
list_after_vllm_index_example =
    list_after_vllm_index run root start newest_first read newest_first-IsOrderBy refl refl
      cache_is_there read_there
