-- ===== src/Services/Deduplicate/NoRaise.antt =====
-- Where the pruning of duplicates raises in Triton mode (services/prune.py), it has changed nothing.
use mcu.Base.{ℕ, ◌≡◌, refl, Bool, false, not, ◌&&◌, List, [], ◌∷◌, length}
use mcu.Base.{ok, err, Bool-cases, inl, inr}
use mcu.Models.{FilePath}
use mcu.Data.Rows.{KernelKey, Tables, kernel_key_eq}
use mcu.Data.Duplicates.{KernelDict}
use mcu.Cache.Disk.{Disk}
use mcu.Cache.Identifier.{KernelIdentifier}
use mcu.Services.Strategy.{triton_strategy}
use mcu.Services.Prune.{Env, Outcome}
use mcu.Services.Deduplicate.{
  deduplicate_found, deduplicate_groups, deduplicate_kernels, finish_deduplication,
}
use mcu.Services.Deduplicate.{identifiers_and_estimate}

-- An outcome that is an exception comes with the disk and the tables as they were.
abbrev pub IsSafe : Disk → Tables KernelKey → Outcome KernelKey → Type 0
IsSafe d t (ok s, d', t') = Unit
IsSafe d t (err e, d', t') = (d' ≡ d) × (t' ≡ t)

module _ (cache_dir : FilePath) (env : Env KernelKey) where
  found-IsSafe :
      (auto_confirm : Bool) (is : List KernelIdentifier) (n : ℕ) (d : Disk) (t : Tables KernelKey)
      → IsSafe d t (deduplicate_found triton_strategy cache_dir env auto_confirm is n d t)
  unfolding deduplicate_found finish_deduplication
  found-IsSafe auto_confirm [] n d t = tt
  found-IsSafe auto_confirm (i ∷ is) n d t =
      elim (Bool-cases (not auto_confirm && not (env.confirm (length (i ∷ is)) n false))) [
        | inl stop ↦ rw (deduplicate_found, stop) tt
        | inr go_on ↦ rw (deduplicate_found, go_on) tt
      ]

  -- The pruning of duplicates in Triton mode raises, if at all, before it has changed anything.
  pub deduplicate_kernels-IsSafe :
      (auto_confirm : Bool) (d : Disk) (t : Tables KernelKey)
      → IsSafe d t (deduplicate_kernels triton_strategy cache_dir env auto_confirm d t)
  unfolding deduplicate_kernels deduplicate_groups
  deduplicate_kernels-IsSafe auto_confirm d t = groups (env.find_duplicates t)
    where
      groups :
          (gs : List (List KernelDict))
          → IsSafe d t (deduplicate_groups triton_strategy cache_dir env auto_confirm gs d t)
      groups [] = tt
      groups (x ∷ gs) =
          elim (identifiers_and_estimate triton_strategy cache_dir (x ∷ gs))
            as (λ r. IsSafe d t (elim r [
              | err e ↦ (err e, d, t)
              | ok (is, n) ↦ deduplicate_found triton_strategy cache_dir env auto_confirm is n d t
            ])) [ err e ↦ (refl, refl) | ok (is, n) ↦ found-IsSafe auto_confirm is n d t ]
