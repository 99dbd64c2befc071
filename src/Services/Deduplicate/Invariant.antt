-- ===== src/Services/Deduplicate/Invariant.antt =====
-- The pruning of duplicates (services/prune.py) keeps the tables well formed, in either mode.
use mcu.Base.{ℕ, ◌+◌, ◌≡◌, refl, ◌∙◌, Bool, false, not, ◌&&◌, List, [], ◌∷◌, length, Eq}
use mcu.Base.{Result-cases, Bool-cases, inl, inr, if◌then◌else◌}
use mcu.Models.{FilePath}
use mcu.Data.Rows.{Tables}
use mcu.Data.Upsert.Invariant.{IsWellFormed}
use mcu.Data.Duplicates.{KernelDict}
use mcu.Cache.Disk.{Disk}
use mcu.Cache.Identifier.{KernelIdentifier}
use mcu.Services.Session.Invariant.{commit-IsWellFormed}
use mcu.Services.Strategy.{Strategy}
use mcu.Services.Prune.{Env, World, begin, delete_kernel_unified}
use mcu.Services.Prune.Invariant.{delete_kernel_unified-tables}
use mcu.Services.Deduplicate.{perform_deletions, delete_single_kernel_safely, finish_deduplication}
use mcu.Services.Deduplicate.{deduplicate_found, deduplicate_groups, deduplicate_kernels}
use mcu.Services.Deduplicate.{identifiers_and_estimate}

module _ {K : Type 0} ⦃e : Eq K⦄ (strategy : Strategy K) (cache_dir : FilePath) where
  single-tables :
      (env : Env K) (i : KernelIdentifier) (w : World K)
      → (delete_single_kernel_safely strategy cache_dir env i w).2.tables ≡ w.tables
  unfolding delete_single_kernel_safely
  single-tables env i w =
      let here = delete_kernel_unified-tables strategy cache_dir env i false w in
      elim (Result-cases (delete_kernel_unified strategy cache_dir env i false w).0) [
        | inl (x, p) ↦ rw (delete_single_kernel_safely, p) here
        | inr (n, p) ↦ rw (delete_single_kernel_safely, p) here
      ]

  deletions-tables :
      (env : Env K) (is : List KernelIdentifier) (freed pruned : ℕ) (w : World K)
      → (perform_deletions strategy cache_dir env is freed pruned w).2.tables ≡ w.tables
  unfolding perform_deletions
  deletions-tables env [] freed pruned w = refl
  deletions-tables env (i ∷ is) freed pruned w =
      let (n, success, w') = delete_single_kernel_safely strategy cache_dir env i w in
      deletions-tables env is (freed + n) (if success then pruned + 1 else pruned) w'
      ∙ single-tables env i w

  finish-IsWellFormed :
      (out : ℕ × ℕ × World K)
      → IsWellFormed out.2.tables
      → IsWellFormed (finish_deduplication strategy cache_dir out).2
  unfolding finish_deduplication
  finish-IsWellFormed (freed, pruned, w) h = commit-IsWellFormed w.pending w.tables h

  found-IsWellFormed :
      (env : Env K) (auto_confirm : Bool) (is : List KernelIdentifier) (n : ℕ) (d : Disk)
      (t : Tables K)
      → IsWellFormed t
      → IsWellFormed (deduplicate_found strategy cache_dir env auto_confirm is n d t).2
  unfolding deduplicate_found
  found-IsWellFormed env auto_confirm [] n d t h = h
  found-IsWellFormed env auto_confirm (i ∷ is) n d t h =
      elim (Bool-cases (not auto_confirm && not (env.confirm (length (i ∷ is)) n false))) [
        | inl stop ↦ rw (deduplicate_found, stop) h
        | inr go_on ↦
            rw (deduplicate_found, go_on)
              (finish-IsWellFormed
                (perform_deletions strategy cache_dir env (i ∷ is) 0 0 (begin d t))
                (rw (deletions-tables env (i ∷ is) 0 0 (begin d t)) h))
      ]

  groups-IsWellFormed :
      (env : Env K) (auto_confirm : Bool) (gs : List (List KernelDict)) (d : Disk) (t : Tables K)
      → IsWellFormed t
      → IsWellFormed (deduplicate_groups strategy cache_dir env auto_confirm gs d t).2
  unfolding deduplicate_groups
  groups-IsWellFormed env auto_confirm [] d t h = h
  groups-IsWellFormed env auto_confirm (g ∷ gs) d t h =
      elim (Result-cases (identifiers_and_estimate strategy cache_dir (g ∷ gs))) [
        | inl (x, p) ↦ rw (deduplicate_groups, p) h
        | inr ((is, n), p) ↦
            rw (deduplicate_groups, p) (found-IsWellFormed env auto_confirm is n d t h)
      ]

  -- The pruning of duplicates keeps the tables well formed in either mode, whatever the session
  -- answers, the prompt says and the system refuses, and where it raises.
  pub deduplicate_kernels-IsWellFormed :
      (env : Env K) (auto_confirm : Bool) (d : Disk) (t : Tables K)
      → IsWellFormed t
      → IsWellFormed (deduplicate_kernels strategy cache_dir env auto_confirm d t).2
  unfolding deduplicate_kernels
  deduplicate_kernels-IsWellFormed env auto_confirm d t h =
      groups-IsWellFormed env auto_confirm (env.find_duplicates t) d t h
