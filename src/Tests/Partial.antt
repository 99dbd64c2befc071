-- ===== src/Tests/Partial.antt =====
-- Partial prunes of two kernels, and of two of which one has a file for its directory.
use mcu.Base.{◌≡◌, refl, true, some, none, [], ◌∷◌, map, err, os_error, if◌then◌else◌}
use mcu.Models.{FilePath}
use mcu.Data.Rows.{common_kernel_values, kernel_key_eq}
use mcu.Data.Upsert.{upsert_kernel}
use mcu.Data.Search.{search}
use mcu.Cache.Disk.{Disk, node_at, file, dir}
use mcu.Services.Strategy.{triton_strategy, path_str}
use mcu.Services.Prune.{prune}
use mcu.Services.Prune.Marks.{triton_identifier}
use mcu.Services.Prune.IrMarks.{gone}
use mcu.Services.Prune.IrLoop.{NoFiles}
use mcu.Services.Prune.Triton.{found}
use mcu.Services.Prune.Partial.{StrippedAll, prune_partial}
use mcu.Services.Prune.PartialFault.{prune_partial_raises}
use mcu.Tests.Order.{sort}
use mcu.Tests.Samples.{root, disk, two_kernels, anything}
use mcu.Tests.Services.{env, env-TritonGet, row_of}

found_two : found root env env-TritonGet anything two_kernels ≡ row_of "h2" 20 ∷ row_of "h1" 10 ∷ []
unfolding search sort upsert_kernel common_kernel_values path_str
found_two = refl

no_files :
    NoFiles root env
      (map triton_identifier (found root env env-TritonGet anything two_kernels))
      disk
unfolding node_at
no_files = rw found_two (refl, (refl, tt))

prune_partial_example :
    StrippedAll root env env-TritonGet anything disk two_kernels
      (prune triton_strategy root env anything true true disk two_kernels)
prune_partial_example = prune_partial root env env-TritonGet anything disk two_kernels no_files

-- The directory of the second kernel found is a file.
abbrev bad_disk : Disk
bad_disk =
    ("c" ∷ [], dir)
    ∷ ("c" ∷ "h1" ∷ [], file 9)
    ∷ ("c" ∷ "h2" ∷ [], dir)
    ∷ ("c" ∷ "h2" ∷ "add.ttir" ∷ [], file 3)
    ∷ []

h2_is_dir : NoFiles root env (triton_identifier (row_of "h2" 20) ∷ []) bad_disk
unfolding node_at
h2_is_dir = (refl, tt)

h1_is_file : node_at ("c" ∷ "h1" ∷ []) bad_disk ≡ some (file 9)
unfolding node_at
h1_is_file = refl

prune_partial_raises_example :
    (d' : Disk) × (prune triton_strategy root env anything true true bad_disk two_kernels
      ≡ (err os_error, d', two_kernels))
    × ((q : FilePath)
        → node_at q d' ≡ (
            if gone root env (triton_identifier (row_of "h2" 20) ∷ []) bad_disk q
            then none
            else node_at q bad_disk))
prune_partial_raises_example =
    prune_partial_raises root env env-TritonGet anything bad_disk two_kernels (row_of "h2" 20 ∷ [])
      [] (row_of "h1" 10) found_two h2_is_dir (rw h1_is_file refl)
