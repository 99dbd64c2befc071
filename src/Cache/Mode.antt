-- ===== src/Cache/Mode.antt =====
-- `detect_cache_mode` and `_has_vllm_cache_structure` (utils/utils.py): which kind of cache stands in
-- a directory.
pub mod Laws
use text.Mathlib.Text.{starts_with}
use mcu.Base.{String, Bool, true, false, ◌&&◌, ◌||◌, List, [], ◌∷◌, if◌then◌else◌}
use mcu.Models.{FilePath}
use mcu.Cache.Disk.{Disk, path_exists, is_dir, iterdir, node_at, ◌//◌}
use mcu.Cache.Identifier.{Mode, triton, vllm}

-- The inner loop, over the names in a hash directory.
pub has_rank_cache : FilePath → Disk → List String → Bool
has_rank_cache hash_dir d [] = false
has_rank_cache hash_dir d (n ∷ names) =
    let rest = has_rank_cache hash_dir d names in
    if is_dir (hash_dir // n) d && starts_with n "rank"
    then path_exists (hash_dir // n // "triton_cache") d || rest
    else rest

-- The outer loop, over the names in `torch_compile_cache`.
pub has_hash_dir : FilePath → Disk → List String → Bool
unfolding has_rank_cache
has_hash_dir torch_compile_cache d [] = false
has_hash_dir torch_compile_cache d (h ∷ names) =
    let rest = has_hash_dir torch_compile_cache d names in
    let hash_dir = torch_compile_cache // h in
    if is_dir hash_dir d then has_rank_cache hash_dir d (iterdir hash_dir d) || rest else rest

pub has_vllm_cache_structure : FilePath → Disk → Bool
unfolding has_hash_dir iterdir
has_vllm_cache_structure cache_dir d =
    let torch_compile_cache = cache_dir // "torch_compile_cache" in
    if path_exists torch_compile_cache d && is_dir torch_compile_cache d
    then has_hash_dir torch_compile_cache d (iterdir torch_compile_cache d)
    else false

-- The loop over the metadata files at the end returns `MODE_TRITON` on either path.
unfoldable pub detect_cache_mode : FilePath → Disk → Mode
unfolding has_vllm_cache_structure node_at
detect_cache_mode cache_dir d =
    if path_exists cache_dir d
    then (if has_vllm_cache_structure cache_dir d then vllm else triton)
    else triton
