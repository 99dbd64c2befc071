-- ===== src/Services/Deduplicate/Triton.antt =====
-- Pruning of duplicates in Triton mode (services/prune.py): which kernels are pruned.
use mcu.Base.{ℕ, ◌+◌, ◌≡◌, refl, ap, true, false, some, arith}
use mcu.Base.{List, [], ◌∷◌, length, length-map, ok}
use mcu.Models.{FilePath}
use mcu.Data.Rows.{Tables, KernelKey, kernel_key_eq}
use mcu.Data.Duplicates.{KernelDict}
use mcu.Cache.Disk.{Disk, ◌//◌}
use mcu.Cache.Deletion.{delete_kernel_directories}
use mcu.Cache.Identifier.{KernelIdentifier}
use mcu.Cache.Identifier.Groups.{
  identifier_of, older_copies, identifiers_of, extract_identifiers_lem,
}
use mcu.Services.Strategy.{triton_strategy}
use mcu.Services.Prune.{Env, World, PruneStats, Outcome, begin}
use mcu.Services.Prune.Marks.{
  TritonGet, key, keys, after, delete_full, delete_full-world, Marked, after-Marked, Marked-trans,
}
use mcu.Services.Prune.Marks.{Marked-refl, nothing-IsPruned, IsPruned, commit-IsPruned}
use mcu.Services.Deduplicate.{delete_single_kernel_safely, perform_deletions, deduplicate_found}
use mcu.Services.Deduplicate.{deduplicate_groups, deduplicate_kernels, finish_deduplication}
use mcu.Services.Deduplicate.{identifiers_and_estimate, estimate_groups}

module _ (cache_dir : FilePath) (env : Env KernelKey) where
  loop_full :
      TritonGet env
      → (is : List KernelIdentifier) (freed pruned : ℕ) (w : World KernelKey)
      → (n : ℕ) × (w' : World KernelKey) × (perform_deletions triton_strategy cache_dir env is freed
            pruned w
          ≡ (n, pruned + length is, w'))
        × Marked cache_dir env (keys cache_dir is) w w'
  unfolding perform_deletions delete_single_kernel_safely
  loop_full g [] freed pruned w = (freed, w, ground arith, Marked-refl cache_dir env w)
  loop_full g (i ∷ is) freed pruned w =
      let m = (delete_kernel_directories env.os ((cache_dir // i.hash_key) ∷ []) w.disk).0 in
      let w1 = after cache_dir env i w in
      let (n, w', e, h) = loop_full g is (freed + m) (pruned + 1) w1 in
      (
        n,
        w',
        rw
            (
              delete_full cache_dir env g i w,
              delete_full-world cache_dir env g i w,
              perform_deletions,
              delete_single_kernel_safely,
              e,
            )
            (ap (λ x. (n, x, w')) (omega arith)),
        Marked-trans cache_dir env (key cache_dir i ∷ []) (keys cache_dir is) w w1 w'
            (after-Marked cache_dir env i w) h,
      )

  -- The service reports `n` pruned kernels, and those with the keys `ks` are gone.
  abbrev pub Pruned : ℕ → List KernelKey → Disk → Tables KernelKey → Outcome KernelKey → Type 0
  Pruned n ks d t o =
      ((s : PruneStats) × (o.0 ≡ ok (some s)) × (s.pruned ≡ n) × (s.aborted ≡ false))
      × IsPruned cache_dir env ks t o.2 d o.1

  found_full :
      TritonGet env
      → (is : List KernelIdentifier) (n : ℕ) (d : Disk) (t : Tables KernelKey)
      → Pruned
          (length is)
          (keys cache_dir is)
          d
          t
          (deduplicate_found triton_strategy cache_dir env true is n d t)
  unfolding deduplicate_found finish_deduplication
  found_full g [] n d t = (
    (record { pruned = 0; reclaimed = 0; aborted = false; empty = true }, refl, refl, refl),
    nothing-IsPruned cache_dir env d t,
  )
  found_full g (i ∷ is) n d t =
      let (freed, w, e, m) = loop_full g (i ∷ is) 0 0 (begin d t) in
      rw e (
        (
          record {
            pruned = 0 + length (i ∷ is);
            reclaimed = freed;
            aborted = false;
            empty = false;
          },
          refl,
          omega arith,
          refl,
        ),
        commit-IsPruned cache_dir env (keys cache_dir (i ∷ is)) d t w m,
      )

  groups_full :
      TritonGet env
      → (groups : List (List KernelDict)) (n : ℕ) (d : Disk) (t : Tables KernelKey)
      → estimate_groups groups ≡ ok n
      → Pruned
          (length (identifiers_of groups))
          (keys cache_dir (identifiers_of groups))
          d
          t
          (deduplicate_groups triton_strategy cache_dir env true groups d t)
  unfolding deduplicate_groups identifiers_and_estimate triton_strategy
  groups_full g [] n d t h = found_full g [] n d t
  groups_full g (x ∷ groups) n d t h =
      rw (deduplicate_groups, identifiers_and_estimate, extract_identifiers_lem (x ∷ groups), h)
        (found_full g (identifiers_of (x ∷ groups)) n d t)

  -- A confirmed pruning of duplicates in Triton mode, where the duplicates found have sizes, never
  -- raises. It prunes, and counts, all but the newest kernel of each group: the rows that these have
  -- under the service's cache directory are gone with their files, every other row keeps its columns
  -- and files, and a path outside the directories of the pruned kernels is as it was.
  pub deduplicate_full :
      TritonGet env
      → (n : ℕ) (d : Disk) (t : Tables KernelKey) → estimate_groups (env.find_duplicates t) ≡ ok n
      → Pruned
          (length (older_copies (env.find_duplicates t)))
          (keys cache_dir (identifiers_of (env.find_duplicates t)))
          d
          t
          (deduplicate_kernels triton_strategy cache_dir env true d t)
  unfolding deduplicate_kernels
  deduplicate_full g n d t h =
      rw (← length-map (older_copies (env.find_duplicates t)) identifier_of)
        (groups_full g (env.find_duplicates t) n d t h)
