-- ===== src/Tests/Ranks.antt =====
-- The directories of a kernel in two ranks of a vLLM cache (utils/utils.py).
use mcu.Base.{◌≡◌, refl, some, true, [], ◌∷◌, ok, string_eq}
use mcu.Cache.Disk.{Disk, dir, node_at, is_dir, ◌//◌}
use mcu.Cache.Identifier.{KernelIdentifier, vllm, get_kernel_directories}
use mcu.Cache.Identifier.Ranks.{AreKernelDirs, get_kernel_directories_lem}
use mcu.Tests.Samples.{root}

-- The second of three directories has no kernel "k", and the name of the third is no rank's.
abbrev ranks : Disk
ranks =
    ("c" ∷ "torch_compile_cache" ∷ "v" ∷ [], dir)
    ∷ ("c" ∷ "torch_compile_cache" ∷ "v" ∷ "rank_0_0" ∷ [], dir)
    ∷ ("c" ∷ "torch_compile_cache" ∷ "v" ∷ "rank_0_0" ∷ "triton_cache" ∷ "k" ∷ [], dir)
    ∷ ("c" ∷ "torch_compile_cache" ∷ "v" ∷ "rank_1_0" ∷ [], dir)
    ∷ ("c" ∷ "torch_compile_cache" ∷ "v" ∷ "other" ∷ [], dir)
    ∷ ("c" ∷ "torch_compile_cache" ∷ "v" ∷ "other" ∷ "triton_cache" ∷ "k" ∷ [], dir)
    ∷ []

abbrev kernel : KernelIdentifier
kernel = record { mode = vllm; hash_key = "k"; vllm_hash = some "v" }

one_rank_test :
    get_kernel_directories root vllm kernel ranks
    ≡ ok ((root // "torch_compile_cache" // "v" // "rank_0_0" // "triton_cache" // "k") ∷ [])
unfolding get_kernel_directories
one_rank_test = refl

hash_dir_is_there : is_dir (root // "torch_compile_cache" // "v") ranks ≡ true
unfolding node_at
hash_dir_is_there = refl

get_kernel_directories_lem_example :
    AreKernelDirs
      (root // "torch_compile_cache" // "v")
      "k"
      ranks
      (get_kernel_directories root vllm kernel ranks)
get_kernel_directories_lem_example =
    get_kernel_directories_lem root kernel "v" ranks refl hash_dir_is_there
