-- ===== src/Services/Deduplicate/Newest.antt =====
-- What pruning duplicates (services/prune.py) leaves of each group: its newest kernel.
use mathlib.Core.List.{Nodup}
use mcu.Base.{
  ℕ, ◌≤◌, sym, ◌||◌, ◌++◌, ==_iff, list_eq, ◌≡◌, refl, ◌∙◌, String, true, false, none, List, [],
  ◌∷◌, map, ok, arith, Bool-cases, inl, inr,
}
use mcu.Base.{All, All-map, ◌==◌, string_eq}
use mcu.Base.Members.{IsOrderBy}
use mcu.Models.{FilePath}
use mcu.Data.Rows.{KernelKey, Row, Tables, kernel_key_eq}
use mcu.Data.Search.{OldestFirst}
use mcu.Data.Upsert.Laws.{key_of}
use mcu.Data.Duplicates.{KernelDict, find_duplicates}
use mcu.Data.Duplicates.Groups.{AllHaveMetadata}
use mathlib.Core.Path.{subst}
use mathlib.Core.Bool.{true≢false}
use mcu.Data.Duplicates.Once.{times_in_sets, times, hashes}
use mcu.Data.Duplicates.Copies.{newest_copies, newest-not_older}
use mcu.Data.Duplicates.Once.{find_duplicates_generic-once}
use mcu.Cache.Disk.{Disk, node_at, below, ◌//◌}
use mcu.Cache.Deletion.Directories.{IsRmtreeFailure, inside}
use mcu.Cache.Identifier.Groups.{identifier_of, older_copies}
use mcu.Services.Session.{any_eq, row_with}
use mcu.Services.Strategy.{triton_strategy, path_str}
use mcu.Services.Prune.{Env}
use mcu.Services.Prune.Marks.{TritonGet, keys}
use mcu.Services.Deduplicate.{deduplicate_kernels, estimate_groups}
use mcu.Services.Deduplicate.Triton.{deduplicate_full}

-- A path in one kernel's directory is in no other's, in one cache directory or in two that lie apart.
outside_other :
    (own p rest : FilePath) (h h' : String)
    → below own p ≡ false
    → below p own ≡ false
    → (h' == h) ≡ false
    → ((own // h) ++ rest == p // h' || below (p // h') ((own // h) ++ rest)) ≡ false
unfolding below
outside_other [] [] rest h h' a b n = ground (arith, ==_iff h h', ==_iff h' h)
outside_other [] (y ∷ p) rest h h' a b n = absurd (true≢false a)
outside_other (x ∷ own) [] rest h h' a b n = absurd (true≢false b)
outside_other (x ∷ own) (y ∷ p) rest h h' a b n = elim (Bool-cases (x == y)) [
  | inl same ↦ ground (
    arith,
    ==_iff x y,
    ==_iff y x,
    same,
    outside_other own p rest h h' (ground (arith, ==_iff x y, ==_iff y x, same, a))
        (ground (arith, ==_iff x y, ==_iff y x, same, b)) n,
  )
  | inr other ↦ ground (arith, ==_iff x y, ==_iff y x, other)
]

other_hash :
    (h : String) (k : KernelDict) (ks : List KernelDict)
    → times h (k ∷ ks) ≡ 0
    → ((k.hash_value == h) ≡ false) × (times h ks ≡ 0)
other_hash h k ks z = ground arith

module _ (cache_dir own : FilePath) where
  any_eq-never :
      (h : String) (ks : List KernelDict)
      → times h ks ≡ 0
      → any_eq (key_of h (path_str own)) (keys cache_dir (map identifier_of ks)) ≡ false
  unfolding any_eq
  any_eq-never h [] z = refl
  any_eq-never h (k ∷ ks) z = let (n, z') = other_hash h k ks z in rw n (any_eq-never h ks z')

  inside-never :
      (h : String) (rest : FilePath) (ks : List KernelDict)
      → below own cache_dir ≡ false
      → below cache_dir own ≡ false
      → times h ks ≡ 0
      → inside
          (map (λ k. cache_dir // k.hash) (keys cache_dir (map identifier_of ks)))
          ((own // h) ++ rest)
        ≡ false
  inside-never h rest [] a b z = refl
  inside-never h rest (k ∷ ks) a b z =
      let (n, z') = other_hash h k ks z in
      rw (outside_other own cache_dir rest h k.hash_value a b n) (inside-never h rest ks a b z')

  -- What is left of a kernel of the cache directory `own`: its row, and what stands in its directory.
  pub record Stays (d d' : Disk) (t t' : Tables KernelKey) (k : KernelDict) : Type 0 where
    pub row :
        row_with (key_of k.hash_value (path_str own)) t'.kernels
        ≡ row_with (key_of k.hash_value (path_str own)) t.kernels
    pub directory :
        (rest : FilePath)
        → node_at ((own // k.hash_value) ++ rest) d' ≡ node_at ((own // k.hash_value) ++ rest) d

  -- A confirmed pruning of duplicates in Triton mode never removes the last copy: for every cache
  -- directory that is the service's own or lies neither above nor below it, and for the newest kernel
  -- of every group found, the row with the kernel's hash and that cache directory is what it was, and
  -- so is all that stands in the kernel's directory there. No two rows may have one hash, every row must
  -- have a metadata object and the duplicates found sizes, ORDER BY must sort, and a removal that fails
  -- must touch nothing outside its tree.
  pub deduplicate-newest :
      (env : Env KernelKey) (walk : List String → List String)
      (order : List (Row KernelKey) → List (Row KernelKey)) (n : ℕ) (d : Disk)
      (t : Tables KernelKey)
      → below own cache_dir ≡ false
      → below cache_dir own ≡ false
      → TritonGet env
      → IsRmtreeFailure env.os
      → IsOrderBy OldestFirst order
      → AllHaveMetadata (λ k. k.hash) (λ k. none) t.kernels
      → Nodup (hashes (λ k. k.hash) (λ k. none) t.kernels)
      → env.find_duplicates ≡ find_duplicates walk order none
      → estimate_groups (env.find_duplicates t) ≡ ok n
      → let out = deduplicate_kernels triton_strategy cache_dir env true d t in
        All (Stays d out.1 t out.2) (newest_copies (env.find_duplicates t))
  unfolding find_duplicates
  deduplicate-newest env walk order n d t a b g f o m u e s =
      let out = deduplicate_kernels triton_strategy cache_dir env true d t in
      let (reported, p) = deduplicate_full cache_dir env g n d t s in
      let sets = env.find_duplicates t in
      All-map (λ k. times k.hash_value (older_copies sets) ≡ 0) (Stays d out.1 t out.2)
        (λ k z. record {
          row =
              p.rows (key_of k.hash_value (path_str own))
              ∙ rw (any_eq-never k.hash_value (older_copies sets) z) refl;
          directory = λ rest.
              p.outside_dirs f ((own // k.hash_value) ++ rest)
                (inside-never k.hash_value rest (older_copies sets) a b z);
        })
        (newest_copies sets)
        (newest-not_older sets (λ h.
          subst (λ find. times_in_sets h (find t) ≤ 1) (sym e)
            (find_duplicates_generic-once (λ k. k.hash) (λ k. none) walk order t.kernels o m u h)))
