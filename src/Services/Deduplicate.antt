-- ===== src/Services/Deduplicate.antt =====
-- `PruningService.deduplicate_kernels` and its helpers (services/prune.py).
pub mod NoRaise
pub mod Newest
pub mod Twice
pub mod Invariant
pub mod Triton
pub mod Vllm
use mcu.Base.{ℕ, ◌+◌, Bool, true, false, not, ◌&&◌, Option, none, some, List, [], ◌∷◌, ◌++◌}
use mcu.Base.{length, all_but_last, ltb, Eq, Result, ok, err, unexpected, ◌>>=◌, if◌then◌else◌}
use mcu.Models.{FilePath}
use mcu.Data.Rows.{Tables}
use mcu.Data.Duplicates.{KernelDict}
use mcu.Cache.Disk.{Disk}
use mcu.Cache.Identifier.{KernelIdentifier, extract_identifiers_from_groups}
use mcu.Services.Session.{commit}
use mcu.Services.Strategy.{Strategy}
use mcu.Services.Prune.{Env, World, PruneStats, Outcome, begin, delete_kernel_unified}

-- `total += kernel_dict.get("total_size", 0)`: adding a null raises.
sum_sizes : List KernelDict → Result ℕ
sum_sizes [] = ok 0
sum_sizes (k ∷ ks) = do
  rest ← sum_sizes ks
  elim k.total_size [ none ↦ err unexpected | some n ↦ ok (n + rest) ]

unfoldable pub estimate_groups : List (List KernelDict) → Result ℕ
unfolding sum_sizes
estimate_groups [] = ok 0
estimate_groups (g ∷ groups) = do
  here ← if ltb 1 (length g) then sum_sizes (all_but_last g) else ok 0
  rest ← estimate_groups groups
  ok (here + rest)

module _ {K : Type 0} ⦃e : Eq K⦄ (strategy : Strategy K) (cache_dir : FilePath) where
  -- `_delete_single_kernel_safely`: any exception is logged, and counts for nothing.
  pub delete_single_kernel_safely : Env K → KernelIdentifier → World K → ℕ × Bool × World K
  delete_single_kernel_safely env i w =
      let (r, w') = delete_kernel_unified strategy cache_dir env i false w in
      elim r [ err x ↦ (0, false, w') | ok n ↦ (n, true, w') ]

  -- `_perform_deduplication_deletions`: the bytes, the count and the world after the loop.
  pub perform_deletions : Env K → List KernelIdentifier → ℕ → ℕ → World K → ℕ × ℕ × World K
  unfolding delete_single_kernel_safely
  perform_deletions env [] freed pruned w = (freed, pruned, w)
  perform_deletions env (i ∷ is) freed pruned w =
      let (n, success, w') = delete_single_kernel_safely env i w in
      perform_deletions env is (freed + n) (if success then pruned + 1 else pruned) w'

  abbrev nothing_to_do : PruneStats
  nothing_to_do = record { pruned = 0; reclaimed = 0; aborted = false; empty = true }

  abbrev cancelled : PruneStats
  cancelled = record { pruned = 0; reclaimed = 0; aborted = true; empty = false }

  pub finish_deduplication : ℕ × ℕ × World K → Outcome K
  finish_deduplication (freed, pruned, w) = (
    ok (some (record { pruned = pruned; reclaimed = freed; aborted = false; empty = false })),
    w.disk,
    commit w.pending w.tables,
  )

  deduplicate_found : Env K → Bool → List KernelIdentifier → ℕ → Disk → Tables K → Outcome K
  unfolding finish_deduplication perform_deletions
  deduplicate_found env auto_confirm [] estimate d t = (ok (some nothing_to_do), d, t)
  deduplicate_found env auto_confirm (i ∷ is) estimate d t =
      if not auto_confirm && not (env.confirm (length (i ∷ is)) estimate false)
      then (ok (some cancelled), d, t)
      else finish_deduplication (perform_deletions env (i ∷ is) 0 0 (begin d t))

  -- `_get_hashes_and_estimated_space_for_deduplication`
  pub identifiers_and_estimate : List (List KernelDict) → Result (List KernelIdentifier × ℕ)
  unfolding estimate_groups
  identifiers_and_estimate groups = do
    is ← extract_identifiers_from_groups strategy.mode groups
    n ← estimate_groups groups
    ok (is, n)

  deduplicate_groups : Env K → Bool → List (List KernelDict) → Disk → Tables K → Outcome K
  unfolding deduplicate_found identifiers_and_estimate
  deduplicate_groups env auto_confirm [] d t = (ok (some nothing_to_do), d, t)
  deduplicate_groups env auto_confirm (g ∷ groups) d t =
      elim (identifiers_and_estimate (g ∷ groups)) [
        | err x ↦ (err x, d, t)
        | ok (is, n) ↦ deduplicate_found env auto_confirm is n d t
      ]

  pub deduplicate_kernels : Env K → Bool → Disk → Tables K → Outcome K
  unfolding deduplicate_groups
  deduplicate_kernels env auto_confirm d t =
      deduplicate_groups env auto_confirm (env.find_duplicates t) d t
