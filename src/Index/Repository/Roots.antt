-- ===== src/Index/Repository/Roots.antt =====
-- The root that `VllmCacheRepository.kernels` (data/cache_repo.py) yields with each kernel.
use mcu.Base.{
  ◌≡◌, true, ◌==◌, ==_self, string_eq, String, not, List, [], ◌∷◌, All, Bool-cases, inl, inr,
}
use mcu.Models.{FilePath}
use mcu.Cache.Disk.{Disk, is_dir, path_exists, iterdir, ◌//◌}
use mcu.Services.Strategy.{path_str}
use mcu.Index.Files.{Files}
use mcu.Index.Validator.{Validate}
use mcu.Index.Repository.{Yields, done, raises, yields, VllmKernel, kernels, vllm_kernels}
use mcu.Index.Repository.{and_then, map_yields, rank_kernels, hash_kernels, find_rank_dirs}
use mcu.Index.Service.Latest.{yielded}

module _ {A : Type 0} (P : A → Type 0) where
  All-and_then :
      (xs ys : Yields A)
      → All P (yielded xs)
      → All P (yielded ys)
      → All P (yielded (and_then xs ys))
  unfolding and_then
  All-and_then done ys hx hy = hy
  All-and_then (raises e) ys hx hy = tt
  All-and_then (yields x xs) ys (h, hx) hy = (h, All-and_then xs ys hx hy)

  All-map_yields :
      {B : Type 0} (f : B → A) (ys : Yields B)
      → ((b : B) → P (f b))
      → All P (yielded (map_yields f ys))
  unfolding map_yields
  All-map_yields f done h = tt
  All-map_yields f (raises e) h = tt
  All-map_yields f (yields b bs) h = (h b, All-map_yields f bs h)

module _ (validate : Validate) (fs : Files) (root : FilePath) (d : Disk) where
  abbrev pub HasRoot : VllmKernel → Type 0
  HasRoot (h, s, rank, k) = (s == path_str root) ≡ true

  rank_kernels-HasRoot :
      (h : String) (ranks : List String)
      → All HasRoot (yielded (rank_kernels validate fs root h d ranks))
  unfolding rank_kernels
  rank_kernels-HasRoot h [] = tt
  rank_kernels-HasRoot h (n ∷ ranks) =
      let found =
        kernels validate fs (root // "torch_compile_cache" // h // n // "triton_cache") d in
      All-and_then HasRoot (map_yields (λ k. (h, path_str root, n, k)) found) _
        (All-map_yields HasRoot (λ k. (h, path_str root, n, k)) found
          (λ k. ==_self (path_str root)))
        (rank_kernels-HasRoot h ranks)

  hash_kernels-HasRoot :
      (names : List String) → All HasRoot (yielded (hash_kernels validate fs root d names))
  unfolding hash_kernels
  hash_kernels-HasRoot [] = tt
  hash_kernels-HasRoot (h ∷ names) =
      let hash_dir = root // "torch_compile_cache" // h in
      let rest = hash_kernels-HasRoot names in
      elim (Bool-cases (is_dir hash_dir d)) [
        | inl y ↦
            rw (hash_kernels, y)
              (All-and_then HasRoot
                (rank_kernels validate fs root h d (find_rank_dirs hash_dir d (iterdir hash_dir d)))
                (hash_kernels validate fs root d names)
                (rank_kernels-HasRoot h (find_rank_dirs hash_dir d (iterdir hash_dir d))) rest)
        | inr n ↦ rw (hash_kernels, n) rest
      ]

  -- The root of every kernel that is yielded is the repository's.
  pub vllm_kernels-HasRoot : All HasRoot (yielded (vllm_kernels validate fs root d))
  unfolding vllm_kernels
  vllm_kernels-HasRoot = elim (Bool-cases (not (path_exists (root // "torch_compile_cache") d))) [
    | inl y ↦ rw (vllm_kernels, y) tt
    | inr n ↦ elim (Bool-cases (is_dir (root // "torch_compile_cache") d)) [
      | inl y' ↦
          rw (vllm_kernels, n, y')
            (hash_kernels-HasRoot (iterdir (root // "torch_compile_cache") d))
      | inr n' ↦ rw (vllm_kernels, n, n') tt
    ]
  ]
