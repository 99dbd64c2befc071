-- ===== src/Index/Repository.antt =====
-- `CacheRepository` and `VllmCacheRepository` (data/cache_repo.py). A generator is the list of what it
-- yields, up to an exception.
pub mod Roots
use text.Mathlib.Text.{starts_with}
use mcu.Base.Text.{ends_with}
use mcu.Base.{os_error, not, String, ◌&&◌, Option, none, some, List, [], ◌∷◌, string_eq}
use mcu.Base.{Result, ok, err, Error, attribute_error, unexpected, if◌then◌else◌}
use mcu.Base.Dict.{Dict, get}
use mcu.Models.{FilePath, Kernel}
use mcu.Models.Json.{Value, Members}
use mcu.Models.Json
use mcu.Cache.Disk.{Disk, iterdir, is_dir, is_file, path_exists, node_at, ◌//◌}
use mcu.Services.Strategy.{path_str}
use mcu.Index.Files.{Files, dict_of, located, parent_and_name, is_falsy}
use mcu.Index.Validator.{Validate, deserialize_kernel}

-- The first of the files `__grp__*.json`
unfoldable pub group_file : List String → Option String
group_file [] = none
group_file (n ∷ names) =
    if ends_with n ".json" && starts_with n "__grp__" then some n else group_file names

abbrev derived : FilePath → Disk → Option (String × String) → Option FilePath
derived root d none = none
derived root d (some (parent, name)) =
    if is_file (root // parent // name) d then some (root // parent // name) else none

-- One path of `child_paths`
abbrev candidate : Files → FilePath → Disk → String → Option FilePath
candidate fs root d s = elim (derived root d (parent_and_name s)) [
  | some p ↦ some p
  | none ↦ if is_file (located fs.cwd s) d then some (located fs.cwd s) else none
]

-- The loop over `child_paths.items()`; `Path` of what is no text raises.
child_path : Files → FilePath → Disk → Dict String Value → Result (Option FilePath)
unfolding node_at
child_path fs root d [] = ok none
child_path fs root d ((k, v) ∷ m) =
    let rest = child_path fs root d m in
    if ends_with k ".json"
    then (elim v [
      | Json.text s ↦ elim (candidate fs root d s) [ some p ↦ ok (some p) | none ↦ rest ]
      | _ ↦ err unexpected
    ])
    else rest

-- `.get` of what is no object raises.
group_metadata : Files → FilePath → Disk → Value → Result (Option FilePath)
unfolding child_path get
group_metadata fs root d (Json.object ms) = elim (get "child_paths" (dict_of ms)) [
  | some (Json.object m) ↦ child_path fs root d (dict_of m)
  | _ ↦ ok none
]
group_metadata fs root d v = err attribute_error

abbrev resolve_in : Files → FilePath → Disk → FilePath → Option String → Result (Option FilePath)
resolve_in fs root d kernel_dir none = ok none
resolve_in fs root d kernel_dir (some n) = elim (fs.read_json (kernel_dir // n)) [
  | none ↦ ok none
  | some v ↦ if is_falsy v then ok none else group_metadata fs root d v
]

-- `_resolve_group_metadata`
pub resolve_group_metadata : Files → FilePath → FilePath → Disk → Result (Option FilePath)
unfolding group_file group_metadata iterdir
resolve_group_metadata fs root kernel_dir d =
    resolve_in fs root d kernel_dir (group_file (iterdir kernel_dir d))

-- What a generator yields until it ends or raises.
pub data Yields (A : Type 0) : Type 0 where
  done : Yields A
  raises : Error → Yields A
  yields : A → Yields A → Yields A

-- `yield from`, and what follows it
pub and_then : {A : Type 0} → Yields A → Yields A → Yields A
and_then done ys = ys
and_then (raises e) ys = raises e
and_then (yields a as') ys = yields a (and_then as' ys)

pub map_yields : {A B : Type 0} → (A → B) → Yields A → Yields B
map_yields f done = done
map_yields f (raises e) = raises e
map_yields f (yields a as') = yields (f a) (map_yields f as')

-- `not meta_path`, `not data` and an invalid kernel are skipped.
kernel_at : Validate → Files → FilePath → String → Disk → Option FilePath → Option Kernel
kernel_at validate fs root n d none = none
kernel_at validate fs root n d (some meta) = elim (fs.read_json meta) [
  | none ↦ none
  | some v ↦
      if is_falsy v then none else deserialize_kernel validate fs v n (path_str root) (root // n) d
]

-- The loop of `iter_triton_kernels`, over the names in the cache directory.
pub iter_kernels : Validate → Files → FilePath → Disk → List String → Yields Kernel
unfolding kernel_at resolve_group_metadata
iter_kernels validate fs root d [] = done
iter_kernels validate fs root d (n ∷ names) =
    let rest = iter_kernels validate fs root d names in
    if is_dir (root // n) d
    then (elim (resolve_group_metadata fs root (root // n) d) [
      | err e ↦ raises e
      | ok meta ↦ elim (kernel_at validate fs root n d meta) [
        | none ↦ rest
        | some k ↦ yields k rest
      ]
    ])
    else rest

-- `CacheRepository.kernels`; `iterdir` of what is no directory raises.
unfoldable pub kernels : Validate → Files → FilePath → Disk → Yields Kernel
unfolding iter_kernels iterdir
kernels validate fs root d =
    if is_dir root d then iter_kernels validate fs root d (iterdir root d) else raises os_error

-- `_find_rank_dirs`, by the names of the rank directories
pub find_rank_dirs : FilePath → Disk → List String → List String
find_rank_dirs hash_dir d [] = []
find_rank_dirs hash_dir d (n ∷ names) =
    let rest = find_rank_dirs hash_dir d names in
    if is_dir (hash_dir // n) d
      && starts_with n "rank"
      && path_exists (hash_dir // n // "triton_cache") d
    then n ∷ rest
    else rest

-- A kernel with its `vllm_hash`, the root and its `rank_x_y`
abbrev pub VllmKernel : Type 0
VllmKernel = String × String × String × Kernel

-- The two inner loops of `VllmCacheRepository.kernels`
pub rank_kernels : Validate → Files → FilePath → String → Disk → List String → Yields VllmKernel
unfolding kernels map_yields and_then
rank_kernels validate fs root h d [] = done
rank_kernels validate fs root h d (n ∷ ranks) =
    and_then
      (map_yields (λ k. (h, path_str root, n, k))
        (kernels validate fs (root // "torch_compile_cache" // h // n // "triton_cache") d))
      (rank_kernels validate fs root h d ranks)

pub hash_kernels : Validate → Files → FilePath → Disk → List String → Yields VllmKernel
unfolding rank_kernels and_then find_rank_dirs iterdir
hash_kernels validate fs root d [] = done
hash_kernels validate fs root d (h ∷ names) =
    let rest = hash_kernels validate fs root d names in
    let hash_dir = root // "torch_compile_cache" // h in
    if is_dir hash_dir d
    then and_then
        (rank_kernels validate fs root h d (find_rank_dirs hash_dir d (iterdir hash_dir d))) rest
    else rest

-- `VllmCacheRepository.kernels`
unfoldable pub vllm_kernels : Validate → Files → FilePath → Disk → Yields VllmKernel
unfolding hash_kernels
vllm_kernels validate fs root d =
    if not (path_exists (root // "torch_compile_cache") d)
    then done
    else if is_dir (root // "torch_compile_cache") d
    then hash_kernels validate fs root d (iterdir (root // "torch_compile_cache") d)
    else raises os_error
