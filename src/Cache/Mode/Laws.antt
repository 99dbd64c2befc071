-- ===== src/Cache/Mode/Laws.antt =====
-- When a directory is taken for a vLLM cache (utils/utils.py).
use text.Mathlib.Text.{starts_with}
use mathlib.Core.Bool.{false≢true}
use mcu.Base.{◌↔◌, String, ◌≡◌, ap, true, ◌&&◌, List, [], ◌∷◌}
use mcu.Base.{arith, Bool-cases, inl, inr, ◌==◌, ==_iff, string_eq, list_eq}
use mcu.Models.{FilePath}
use mcu.Cache.Disk.{Disk, path_exists, is_dir, iterdir, child_name, ◌//◌}
use mcu.Cache.Paths.{listed, listed-iterdir, child_name-child, dir_is_there}
use mcu.Cache.Identifier.{vllm}
use mcu.Cache.Mode.{has_rank_cache, has_hash_dir, has_vllm_cache_structure, detect_cache_mode}

-- What stands under the names `h` and `n` of a vLLM cache.
pub record IsRankCache (root : FilePath) (d : Disk) (h n : String) : Type 0 where
  pub hash_dir : is_dir (root // "torch_compile_cache" // h) d ≡ true
  pub rank_dir : is_dir (root // "torch_compile_cache" // h // n) d ≡ true
  pub is_rank : starts_with n "rank" ≡ true
  pub triton_cache :
      path_exists (root // "torch_compile_cache" // h // n // "triton_cache") d ≡ true

module _ (p : FilePath) where
  name_of : (n m : String) → ((p // n) == (p // m)) ≡ true → n ≡ m
  name_of n m e =
      let z : child_name p (p // n) ≡ child_name p (p // m) =
        ap (child_name p) ((==_iff (p // n) (p // m)).0 e) in
      cc (z, child_name-child p n, child_name-child p m)

  rank_listed :
      (d : Disk) (n : String) (names : List String)
      → listed p names (p // n) ≡ true
      → is_dir (p // n) d ≡ true
      → starts_with n "rank" ≡ true
      → path_exists (p // n // "triton_cache") d ≡ true
      → has_rank_cache p d names ≡ true
  unfolding has_rank_cache listed
  rank_listed d n [] l r s t = l
  rank_listed d n (m ∷ names) l r s t = elim (Bool-cases ((p // m) == (p // n))) [
    | inl y ↦ rw (name_of m n y) (ground arith)
    | inr o ↦ ground (arith, rank_listed d n names)
  ]

  rank_found :
      (d : Disk) (names : List String)
      → has_rank_cache p d names ≡ true
      → (n : String) × (is_dir (p // n) d ≡ true)
        × (starts_with n "rank" ≡ true)
        × (path_exists (p // n // "triton_cache") d ≡ true)
  unfolding has_rank_cache
  rank_found d [] h = absurd (false≢true h)
  rank_found d (n ∷ names) h =
      elim (Bool-cases
        (is_dir (p // n) d && starts_with n "rank" && path_exists (p // n // "triton_cache") d)) [
          | inl y ↦ (n, ground arith, ground arith, ground arith)
          | inr o ↦ rank_found d names (ground arith)
        ]

  hash_listed :
      (d : Disk) (h : String) (names : List String)
      → listed p names (p // h) ≡ true
      → is_dir (p // h) d ≡ true
      → has_rank_cache (p // h) d (iterdir (p // h) d) ≡ true
      → has_hash_dir p d names ≡ true
  unfolding has_hash_dir listed
  hash_listed d h [] l r s = l
  hash_listed d h (m ∷ names) l r s = elim (Bool-cases ((p // m) == (p // h))) [
    | inl y ↦ rw (name_of m h y) (ground arith)
    | inr o ↦ ground (arith, hash_listed d h names)
  ]

  hash_found :
      (d : Disk) (names : List String)
      → has_hash_dir p d names ≡ true
      → (h : String) × (is_dir (p // h) d ≡ true)
        × (has_rank_cache (p // h) d (iterdir (p // h) d) ≡ true)
  unfolding has_hash_dir
  hash_found d [] h = absurd (false≢true h)
  hash_found d (m ∷ names) h =
      elim (Bool-cases (is_dir (p // m) d && has_rank_cache (p // m) d (iterdir (p // m) d))) [
        | inl y ↦ (m, ground arith, ground arith)
        | inr o ↦ hash_found d names (ground arith)
      ]

detect_vllm :
    (root : FilePath) (d : Disk) (h n : String)
    → path_exists root d ≡ true
    → is_dir (root // "torch_compile_cache") d ≡ true
    → IsRankCache root d h n
    → detect_cache_mode root d ≡ vllm
unfolding detect_cache_mode has_vllm_cache_structure
detect_vllm root d h n e t c =
    let torch = root // "torch_compile_cache" in
    let l =
      listed-iterdir torch (torch // h) h d (child_name-child torch h)
        (dir_is_there _ d c.hash_dir) in
    let l' =
      listed-iterdir (torch // h) (torch // h // n) n d (child_name-child (torch // h) n)
        (dir_is_there _ d c.rank_dir) in
    let r = rank_listed (torch // h) d n _ l' c.rank_dir c.is_rank c.triton_cache in
    let s = hash_listed torch d h _ l c.hash_dir r in ground (arith, s)

detected_vllm :
    (root : FilePath) (d : Disk)
    → detect_cache_mode root d ≡ vllm
    → (path_exists root d ≡ true)
      × (is_dir (root // "torch_compile_cache") d ≡ true)
      × (h : String) × (n : String) × IsRankCache root d h n
unfolding detect_cache_mode has_vllm_cache_structure
detected_vllm root d h =
    let torch = root // "torch_compile_cache" in
    let s : has_hash_dir torch d (iterdir torch d) ≡ true = ground arith in
    let (x, hx, r) = hash_found torch d _ s in
    let (n, hn, sn, tn) = rank_found (torch // x) d _ r in
    (
      ground arith,
      ground arith,
      x,
      n,
      record { hash_dir = hx; rank_dir = hn; is_rank = sn; triton_cache = tn },
    )

-- A directory is taken for a vLLM cache exactly if it is there and has a directory
-- `torch_compile_cache`, in it a directory, in that one a directory whose name begins with "rank", and
-- there a `triton_cache`.
pub detect_cache_mode_iff :
    (root : FilePath) (d : Disk)
    → (detect_cache_mode root d ≡ vllm) ↔ (
        (path_exists root d ≡ true)
        × (is_dir (root // "torch_compile_cache") d ≡ true)
        × (h : String) × (n : String) × IsRankCache root d h n)
detect_cache_mode_iff root d = (detected_vllm root d, λ x. detect_vllm root d x.2 x.3 x.0 x.1 x.4)
