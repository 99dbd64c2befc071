-- ===== src/Cache/Identifier.antt =====
-- Kernel identifiers (utils/utils.py, utils/mcm_constants.py) and the directories that they name.
pub mod Groups
pub mod Ranks
use text.Mathlib.Text.{starts_with}
use mcu.Base.{
  os_error, not, String, ◌<>◌, Bool, true, false, ◌&&◌, Option, none, some, List, [], ◌∷◌, ◌++◌,
  length, ltb,
}
use mcu.Base.{all_but_last, Result, ok, err, value_error, ◌>>=◌, ◌==◌, string_eq, if◌then◌else◌}
use mcu.Models.{FilePath}
use mcu.Cache.Disk.{Disk, path_exists, is_dir, iterdir, ◌//◌, node_at}
use mcu.Data.Duplicates.{KernelDict}

-- `MODE_TRITON` and `MODE_VLLM`; the code takes every other text for `MODE_TRITON`.
pub data Mode : Type 0 where
  triton vllm : Mode

pub record KernelIdentifier : Type 0 where
  pub mode : Mode
  pub hash_key : String
  pub vllm_hash : Option String

-- The keyword arguments of `create_kernel_identifier`; one that is not given reads as `None`.
pub record Kwargs : Type 0 where
  pub hash : Option String
  pub triton_cache_key : Option String
  pub vllm_hash : Option String

create_vllm_identifier : Option String → Option String → Result KernelIdentifier
create_vllm_identifier none h = err value_error
create_vllm_identifier (some k) h = ok (record { mode = vllm; hash_key = k; vllm_hash = h })

create_triton_identifier : Option String → Result KernelIdentifier
create_triton_identifier none = err value_error
create_triton_identifier (some k) = ok (record { mode = triton; hash_key = k; vllm_hash = none })

unfoldable pub create_kernel_identifier : Mode → Kwargs → Result KernelIdentifier
unfolding create_vllm_identifier create_triton_identifier
create_kernel_identifier vllm k = create_vllm_identifier k.triton_cache_key k.vllm_hash
create_kernel_identifier triton k = create_triton_identifier k.hash

-- The two calls of `create_kernel_identifier` on a kernel dictionary.
unfoldable pub identifier_of_dict : Mode → KernelDict → Result KernelIdentifier
unfolding create_kernel_identifier
identifier_of_dict vllm k =
    create_kernel_identifier vllm
      (record { hash = none; triton_cache_key = some k.hash_value; vllm_hash = k.vllm_hash })
identifier_of_dict triton k =
    create_kernel_identifier triton
      (record { hash = some k.hash_value; triton_cache_key = none; vllm_hash = none })

identifiers_of_dicts : Mode → List KernelDict → Result (List KernelIdentifier)
identifiers_of_dicts mode [] = ok []
identifiers_of_dicts mode (k ∷ ks) = do
  i ← identifier_of_dict mode k
  is ← identifiers_of_dicts mode ks
  ok (i ∷ is)

-- All but the newest of each group of more than one.
unfoldable pub extract_identifiers_from_groups :
    Mode → List (List KernelDict) → Result (List KernelIdentifier)
unfolding identifiers_of_dicts identifier_of_dict
extract_identifiers_from_groups mode [] = ok []
extract_identifiers_from_groups mode (g ∷ groups) = do
  here ← if ltb 1 (length g) then identifiers_of_dicts mode (all_but_last g) else ok []
  rest ← extract_identifiers_from_groups mode groups
  ok (here ++ rest)

-- The loop over the rank directories of `vllm_root_dir`.
rank_kernel_dirs : FilePath → String → List String → Disk → List FilePath
rank_kernel_dirs root key [] d = []
rank_kernel_dirs root key (n ∷ names) d =
    let rest = rank_kernel_dirs root key names d in
    let kernel_dir = root // n // "triton_cache" // key in
    if is_dir (root // n) d && starts_with n "rank"
    then (if path_exists kernel_dir d then kernel_dir ∷ rest else rest)
    else rest

-- `iterdir` of what is no directory raises.
unfoldable pub find_vllm_kernel_dirs : FilePath → String → String → Disk → Result (List FilePath)
unfolding rank_kernel_dirs iterdir node_at
find_vllm_kernel_dirs cache_dir vllm_hash key d =
    let root = cache_dir // "torch_compile_cache" // vllm_hash in
    if not (path_exists root d)
    then ok []
    else if is_dir root d
    then ok (rank_kernel_dirs root key (iterdir root d) d)
    else err os_error

unfoldable pub get_kernel_directories :
    FilePath → Mode → KernelIdentifier → Disk → Result (List FilePath)
unfolding find_vllm_kernel_dirs
get_kernel_directories cache_dir vllm i d = elim i.vllm_hash [
  | none ↦ err value_error
  | some h ↦ find_vllm_kernel_dirs cache_dir h i.hash_key d
]
get_kernel_directories cache_dir triton i d = ok ((cache_dir // i.hash_key) ∷ [])
