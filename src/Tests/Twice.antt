-- ===== src/Tests/Twice.antt =====
-- After pruning the duplicates of a table none are found (services/prune.py).
use mathlib.Core.Bool.{Bool-set}
use mcu.Base.{◌≡◌, refl, true, String, none, List, [], map, All}
use mcu.Base.Dict.{get}
use mcu.Base.Members.{of_All}
use mcu.Models.Json.{equal}
use mcu.Data.Rows.{KernelKey, Row, common_kernel_values, kernel_key_eq}
use mcu.Data.Upsert.{upsert_kernel}
use mcu.Data.Duplicates.{KernelDict, kernel_dict, find_duplicates}
use mcu.Data.Duplicates.Sets.{same}
use mcu.Data.Duplicates.Complete.{ComparesBy}
use mcu.Services.Strategy.{triton_strategy, path_str}
use mcu.Services.Deduplicate.{deduplicate_kernels}
use mcu.Services.Deduplicate.Twice.{AllHere, deduplicate_twice}
use mcu.Tests.Order.{oldest_first, oldest_first-IsOrderBy}
use mcu.Tests.Samples.{root, disk, two_kernels}
use mcu.Tests.Data.{have_metadata, two_kernels-IsWellFormed}
use mcu.Tests.Services.{env, env-TritonGet, sizes, row_of}

abbrev in_order : List String → List String
in_order ks = ks

-- The metadata of the two kernels is the same, hashes left out.
abbrev one_form : KernelDict → String
one_form k = ""

abbrev dict : Row KernelKey → KernelDict
dict = kernel_dict (λ k. k.hash) (λ k. none)

abbrev dicts : List KernelDict
dicts = map dict two_kernels.kernels

abbrev AllSame : KernelDict → Type 0
AllSame x = All (λ y. same in_order x y ≡ true) dicts

same_first : AllSame (dict (row_of "h1" 10))
unfolding same upsert_kernel common_kernel_values kernel_dict equal get
same_first = (refl, (refl, tt))

same_second : AllSame (dict (row_of "h2" 20))
unfolding same upsert_kernel common_kernel_values kernel_dict equal get
same_second = (refl, (refl, tt))

compared : ComparesBy in_order one_form dicts
unfolding upsert_kernel common_kernel_values
compared x y mx my =
    of_All (λ x. same in_order x y ≡ true) (λ x. Bool-set _ _) dicts
      (to_y (dict (row_of "h1" 10)) same_first, (to_y (dict (row_of "h2" 20)) same_second, tt)) mx
  where
    to_y : (x : KernelDict) → AllSame x → same in_order x y ≡ true
    to_y x h = of_All (λ y. same in_order x y ≡ true) (λ y. Bool-set _ _) dicts h my

all_here : AllHere root two_kernels.kernels
unfolding upsert_kernel path_str
all_here = (refl, (refl, tt))

deduplicate_twice_example :
    find_duplicates in_order oldest_first none
      (deduplicate_kernels triton_strategy root env true disk two_kernels).2
    ≡ []
deduplicate_twice_example =
    deduplicate_twice root env in_order one_form oldest_first disk two_kernels env-TritonGet
      oldest_first-IsOrderBy refl two_kernels-IsWellFormed all_here have_metadata compared 8 sizes
