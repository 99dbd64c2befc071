-- ===== src/Cache/Identifier/Ranks.antt =====
-- The directories of a kernel of vLLM: one in each rank directory that has the kernel
-- (`find_vllm_kernel_dirs` of utils/utils.py).
use text.Mathlib.Text.{starts_with}
use mathlib.Core.List.{Mem, mem-cons_self, mem-cons_of_mem}
use mathlib.Core.Bool.{false≢true}
use mcu.Base.{String, ◌≡◌, refl, sym, ◌∙◌, true, false, ◌&&◌, some, List, [], ◌∷◌, All}
use mcu.Base.{
  Bool, Bool-cases, Option-cases, inl, inr, ◌==◌, ==_iff, string_eq, list_eq, ok, Result,
  if◌then◌else◌, arith,
}
use mcu.Models.{FilePath}
use mcu.Cache.Disk.{Disk, path_exists, is_dir, iterdir, node_at, ◌//◌}
use mcu.Cache.Paths.{listed, listed-iterdir, child_name-child, child-eq, dir_is_there}
use mcu.Cache.Identifier.{KernelIdentifier, vllm, get_kernel_directories}
use mcu.Cache.Identifier.{rank_kernel_dirs}

-- A rank directory with the name `n` below `root` that has the kernel `key`.
pub record HasKernel (root : FilePath) (key : String) (d : Disk) (n : String) : Type 0 where
  pub rank_dir : is_dir (root // n) d ≡ true
  pub is_rank : starts_with n "rank" ≡ true
  pub kernel_dir : path_exists (root // n // "triton_cache" // key) d ≡ true

mem-added :
    (b c : Bool) (q : FilePath) {p : FilePath} {rs : List FilePath}
    → Mem p rs
    → Mem p (if b then (if c then q ∷ rs else rs) else rs)
mem-added true true q m = mem-cons_of_mem q m
mem-added true false q m = m
mem-added false c q m = m

dir-exists : (p : FilePath) (d : Disk) → is_dir p d ≡ true → path_exists p d ≡ true
dir-exists p d h = elim (Option-cases (node_at p d)) [
  | inl e ↦ absurd (cc (rw e at h))
  | inr (n, e) ↦ rw e refl
]

module _ (root : FilePath) (key : String) (d : Disk) where
  abbrev dir_in : String → FilePath
  dir_in n = root // n // "triton_cache" // key

  dirs-HasKernel :
      (names : List String)
      → All
          (λ p. (n : String) × HasKernel root key d n × (p ≡ dir_in n))
          (rank_kernel_dirs root key names d)
  unfolding rank_kernel_dirs
  dirs-HasKernel [] = tt
  dirs-HasKernel (n ∷ names) = elim (Bool-cases (is_dir (root // n) d && starts_with n "rank")) [
    | inr o ↦ rw o (dirs-HasKernel names)
    | inl y ↦ elim (Bool-cases (path_exists (dir_in n) d)) [
      | inr o ↦ rw (y, o) (dirs-HasKernel names)
      | inl k ↦
          rw (y, k)
            (
              (n, record { rank_dir = ground arith; is_rank = ground arith; kernel_dir = k }, refl),
              dirs-HasKernel names,
            )
    ]
  ]

  HasKernel-found :
      (n : String) (names : List String)
      → HasKernel root key d n
      → listed root names (root // n) ≡ true
      → Mem (dir_in n) (rank_kernel_dirs root key names d)
  unfolding rank_kernel_dirs listed
  HasKernel-found n [] h l = absurd (false≢true l)
  HasKernel-found n (m ∷ names) h l = elim (Bool-cases ((root // m) == (root // n))) [
    | inl y ↦
        let e : m ≡ n = (==_iff m n).0 (sym (child-eq root m n) ∙ y) in
        rw e (rw (h.rank_dir, h.is_rank, h.kernel_dir) mem-cons_self)
    | inr o ↦ mem-added _ _ _ (HasKernel-found n names h (ground (arith, o, l)))
  ]

-- Each of the directories is one of a kernel in a rank directory, and each such directory is found.
abbrev pub AreKernelDirs : FilePath → String → Disk → Result (List FilePath) → Type 0
AreKernelDirs root key d r =
    (dirs : List FilePath) × (r ≡ ok dirs)
    × All (λ p. (n : String) × HasKernel root key d n × (p ≡ dir_in root key d n)) dirs
    × ((n : String) → HasKernel root key d n → Mem (dir_in root key d n) dirs)

-- In vLLM mode, where the directory of the hash is there, the directories of a kernel are those named
-- after its key below `triton_cache` in a directory whose name begins with "rank": each of them is
-- one, and each one that exists is among them.
pub get_kernel_directories_lem :
    (cache_dir : FilePath) (i : KernelIdentifier) (h : String) (d : Disk)
    → i.vllm_hash ≡ some h
    → is_dir (cache_dir // "torch_compile_cache" // h) d ≡ true
    → AreKernelDirs
        (cache_dir // "torch_compile_cache" // h)
        i.hash_key
        d
        (get_kernel_directories cache_dir vllm i d)
unfolding get_kernel_directories
get_kernel_directories_lem cache_dir i h d e t =
    let root = cache_dir // "torch_compile_cache" // h in
    let names = iterdir root d in
    (
      rank_kernel_dirs root i.hash_key names d,
      rw (e, dir-exists root d t, t) refl,
      dirs-HasKernel root i.hash_key d names,
      λ n k. HasKernel-found root i.hash_key d n names k (
          listed-iterdir root (root // n) n d (child_name-child root n)
            (dir_is_there (root // n) d k.rank_dir)),
    )
