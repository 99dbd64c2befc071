-- ===== src/Tests/Newest.antt =====
-- Pruning the duplicates of a table keeps the newer of two (services/prune.py).
use mathlib.Core.List.{mem-cons, not-mem-nil, Nodup, Nodup-nil, Nodup-cons}
use mathlib.Core.Logic.Or
use mathlib.Core.Bool.{false≢true}
use mcu.Tests.Data.{have_metadata}
use mcu.Base.{refl, true, none, All, ==_iff, string_eq}
use mcu.Data.Rows.{kernel_key_eq}
use mcu.Data.Upsert.{upsert_kernel}
use mcu.Data.Duplicates.Once.{hashes}
use mcu.Data.Duplicates.Copies.{newest_copies}
use mcu.Cache.Disk.{below}
use mcu.Cache.Deletion.Directories.{IsRmtreeFailure}
use mcu.Services.Strategy.{triton_strategy}
use mcu.Services.Deduplicate.{deduplicate_kernels}
use mcu.Services.Deduplicate.Newest.{Stays, deduplicate-newest}
use mcu.Tests.Order.{oldest_first, oldest_first-IsOrderBy}
use mcu.Tests.Samples.{root, disk, two_kernels, willing}
use mcu.Tests.Services.{env, env-TritonGet, sizes}

willing-IsRmtreeFailure : IsRmtreeFailure willing
willing-IsRmtreeFailure = record { outside = λ p q d h. refl; adds_nothing = λ p q d h. h }

one_hash_each : Nodup (hashes (λ k. k.hash) (λ k. none) two_kernels.kernels)
unfolding upsert_kernel
one_hash_each = Nodup-cons.1 (
  λ m.
      Or.elim (λ a b. absurd a) (mem-cons.0 m) (λ p. false≢true ((==_iff "h1" "h2").1 p))
        (λ m'. not-mem-nil m'),
  Nodup-cons.1 (not-mem-nil, Nodup-nil),
)

deduplicate-newest_example :
    let out = deduplicate_kernels triton_strategy root env true disk two_kernels in
    All
      (Stays root root disk out.1 two_kernels out.2)
      (newest_copies (env.find_duplicates two_kernels))
unfolding below
deduplicate-newest_example =
    deduplicate-newest root root env (λ ks. ks) oldest_first 8 disk two_kernels refl refl
      env-TritonGet willing-IsRmtreeFailure oldest_first-IsOrderBy have_metadata one_hash_each refl
      sizes
