-- ===== src/Services/Deduplicate/Vllm.antt =====
-- Pruning of duplicates in vLLM mode (services/prune.py): every deletion raises, and the exception is
-- logged and dropped.
use mcu.Base.{ap, ℕ, ◌+◌, ◌≡◌, refl, ◌∙◌, Bool, true, false, not, ◌&&◌, some, arith}
use mcu.Base.{List, [], ◌∷◌, length, ok, err, Error, ◌⊎◌, inl, inr, Bool-cases}
use mcu.Models.{FilePath}
use mcu.Data.Rows.{Tables, VllmKey, vllm_key_eq}
use mcu.Data.Duplicates.{KernelDict}
use mcu.Cache.Disk.{Disk}
use mcu.Cache.Identifier.{KernelIdentifier}
use mcu.Services.Strategy.{vllm_strategy}
use mcu.Services.Prune.{Env, World, PruneStats, Outcome, begin}
use mcu.Services.Prune.Committed.{commit-nothing}
use mcu.Services.Prune.Vllm.{VllmGet, delete_any_vllm_raises}
use mcu.Services.Deduplicate.{delete_single_kernel_safely, perform_deletions, deduplicate_found}
use mcu.Services.Deduplicate.{deduplicate_groups, deduplicate_kernels, finish_deduplication}
use mcu.Services.Deduplicate.{identifiers_and_estimate}

module _ (cache_dir : FilePath) (env : Env VllmKey) (g : VllmGet env) where
  loop_keeps :
      (is : List KernelIdentifier) (freed pruned : ℕ) (w : World VllmKey)
      → perform_deletions vllm_strategy cache_dir env is freed pruned w ≡ (freed, pruned, w)
  unfolding perform_deletions delete_single_kernel_safely
  loop_keeps [] freed pruned w = refl
  loop_keeps (i ∷ is) freed pruned w =
      let (x, e) = delete_any_vllm_raises cache_dir env g i w in
      rw (e, ap (λ p. p.1) e, perform_deletions, delete_single_kernel_safely)
        (loop_keeps is (freed + 0) pruned w ∙ ground arith)

  -- The service raises, or reports that it pruned nothing; the disk and the tables are as before.
  abbrev pub KeepsAll : Disk → Tables VllmKey → Outcome VllmKey → Type 0
  KeepsAll d t o =
      ((x : Error) × (o ≡ (err x, d, t)))
      ⊎ ((s : PruneStats) × (o ≡ (ok (some s), d, t)) × (s.pruned ≡ 0) × (s.reclaimed ≡ 0))

  found_keeps :
      (auto_confirm : Bool) (is : List KernelIdentifier) (n : ℕ) (d : Disk) (t : Tables VllmKey)
      → KeepsAll d t (deduplicate_found vllm_strategy cache_dir env auto_confirm is n d t)
  unfolding deduplicate_found
  found_keeps auto_confirm [] n d t = inr (_, refl, refl, refl)
  found_keeps auto_confirm (i ∷ is) n d t =
      elim (Bool-cases (not auto_confirm && not (env.confirm (length (i ∷ is)) n false))) [
        | inl y ↦ inr (
          record { pruned = 0; reclaimed = 0; aborted = true; empty = false },
          rw y refl,
          refl,
          refl,
        )
        | inr go_on ↦ inr (
          record { pruned = 0; reclaimed = 0; aborted = false; empty = false },
          rw (go_on, loop_keeps (i ∷ is) 0 0 (begin d t), finish_deduplication, commit-nothing t)
              refl,
          refl,
          refl,
        )
      ]

  groups_keep :
      (auto_confirm : Bool) (groups : List (List KernelDict)) (d : Disk) (t : Tables VllmKey)
      → KeepsAll d t (deduplicate_groups vllm_strategy cache_dir env auto_confirm groups d t)
  unfolding deduplicate_groups
  groups_keep auto_confirm [] d t = inr (_, refl, refl, refl)
  groups_keep auto_confirm (x ∷ groups) d t =
      elim (identifiers_and_estimate vllm_strategy cache_dir (x ∷ groups))
        as (λ r. KeepsAll d t (elim r [
          | err x ↦ (err x, d, t)
          | ok (is, n) ↦ deduplicate_found vllm_strategy cache_dir env auto_confirm is n d t
        ])) [ err e ↦ inl (e, refl) | ok (is, n) ↦ found_keeps auto_confirm is n d t ]

  -- In vLLM mode the pruning of duplicates changes neither the disk nor the tables: it raises, or it
  -- reports no pruned kernel and no byte, whatever the duplicates and the answer to the prompt.
  pub deduplicate_vllm_keeps :
      (auto_confirm : Bool) (d : Disk) (t : Tables VllmKey)
      → KeepsAll d t (deduplicate_kernels vllm_strategy cache_dir env auto_confirm d t)
  unfolding deduplicate_kernels
  deduplicate_vllm_keeps auto_confirm d t = groups_keep auto_confirm (env.find_duplicates t) d t
