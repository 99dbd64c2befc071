-- ===== src/Tests/Cli.antt =====
-- Runs of the command line (cli/main.py, utils/utils.py).
use mcu.Base.{◌↔◌, ℕ, ◌-◌, ◌≡◌, refl, ◌↔◌, String, true, false, Option, none, some, [], ◌∷◌, length}
use mathlib.Core.List.{Perm}
use mcu.Base.{Bool, List, keep}
use mcu.Data.Rows.{KernelKey, Row}
use mcu.Data.Search.Matches.{Matches}
use mcu.Tests.Order.{newest_first, newest_first-IsOrderBy}
use mcu.Base.{ok, err, exit, leb, ◌&&◌, if◌then◌else◌, ◌==◌, nat_eq}
use mcu.Data.Rows.{kernel_key_eq, vllm_key_eq}
use mcu.Cache.Disk.{path_exists, node_at}
use mcu.Cache.Identifier.{Mode, triton, vllm}
use mcu.Cache.Mode.{detect_cache_mode}
use mcu.Cache.Mode.Laws.{IsRankCache, detect_cache_mode_iff}
use mcu.Cache.Disk.{Disk, dir, is_dir, ◌//◌}
use mcu.Services.Strategy.{triton_strategy, path_str}
use mcu.Services.Prune.Marks.{IsPruned}
use mcu.Services.Prune.Triton.{keys_of}
use mcu.Cli.Options.{cutoff, get_older_younger}
use mcu.Cli.Options.Bounds.{IsWindow, get_older_younger-IsWindow}
use mcu.Cli.Commands.{Settings, CommonSearchOptions, check_options, criteria_of, execute_prune}
use mcu.Cli.Commands.{none_matched, pruned_fully}
use mcu.Cli.Commands.Laws.{Accepted, prune_command_full}
use mcu.Cli.Commands.Safety.{Untouched, prune_command-Untouched}
use mcu.Tests.Samples.{root, disk, two_kernels}
use mcu.Tests.Services.{env, env-TritonGet}

-- The ASCII digits.
abbrev pub decimal : ℕ → Option ℕ
decimal c = if leb b'0' c && leb c b'9' then some (c - b'0') else none

-- Ten days after the beginning of the year 1.
abbrev pub now : ℕ
now = 864_000_000_000

abbrev pub settings : Settings
settings = record {
  model_cache_dir = root;
  model_cache_dir_vllm = root;
  db_exists = λ m. true;
  now = now;
  decimal = decimal;
}

abbrev options : CommonSearchOptions
options = record {
  name = none;
  backend = none;
  arch = none;
  older_than = none;
  younger_than = none;
  cache_dir = none;
  cache_hit_lower = none;
  cache_hit_higher = none;
  mode = some "triton";
}

day_test : cutoff decimal now (some "1D") ≡ ok (some 777_600_000_000)
unfolding cutoff
day_test = refl

week_test : get_older_younger decimal now (some "1w") (some "0d") ≡ ok (some 259_200_000_000, none)
unfolding get_older_younger
week_test = refl

reversed_test : get_older_younger decimal now (some "1w") (some "1d") ≡ err (exit 1)
unfolding get_older_younger
reversed_test = refl

before_year_one_test : get_older_younger decimal now (some "2w") none ≡ err (exit 1)
unfolding get_older_younger
before_year_one_test = refl

get_older_younger-IsWindow_example :
    IsWindow now (get_older_younger decimal now (some "1d") (some "1w"))
get_older_younger-IsWindow_example = get_older_younger-IsWindow decimal now (some "1d") (some "1w")

accepted : (m : Mode) → Accepted settings options m (none, none)
unfolding check_options get_older_younger
accepted m = record { checked = refl; cutoffs = refl }

root_is_there : path_exists root disk ≡ true
unfolding node_at
root_is_there = refl

prune_command_full_example :
    let criteria = criteria_of options (some (path_str root)) (none, none) in
    let out = execute_prune settings triton_strategy env options true false true disk two_kernels in
    (rows : List (Row KernelKey)) × (p : Row KernelKey → Bool) × ((r : Row KernelKey)
      → (p r ≡ true) ↔ Matches (λ k. k.cache_dir) criteria r)
    × Perm rows (keep p two_kernels.kernels)
    × (out.0 ≡ (if length rows == 0 then none_matched else pruned_fully (length rows)))
    × IsPruned root env (keys_of root env env-TritonGet rows) two_kernels out.2 disk out.1
prune_command_full_example =
    prune_command_full settings options (none, none) env env-TritonGet newest_first disk two_kernels
      (accepted triton) newest_first-IsOrderBy refl root_is_there

prune_command-Untouched_example :
    Untouched disk two_kernels
      (execute_prune settings triton_strategy env options false true true disk two_kernels)
prune_command-Untouched_example =
    prune_command-Untouched settings options env env-TritonGet false true true disk two_kernels refl

abbrev vllm_disk : Disk
vllm_disk =
    ("c" ∷ [], dir)
    ∷ ("c" ∷ "torch_compile_cache" ∷ [], dir)
    ∷ ("c" ∷ "torch_compile_cache" ∷ "v" ∷ [], dir)
    ∷ ("c" ∷ "torch_compile_cache" ∷ "v" ∷ "rank_0_0" ∷ [], dir)
    ∷ ("c" ∷ "torch_compile_cache" ∷ "v" ∷ "rank_0_0" ∷ "triton_cache" ∷ [], dir)
    ∷ []

rank_cache : IsRankCache root vllm_disk "v" "rank_0_0"
unfolding node_at
rank_cache = record { hash_dir = refl; rank_dir = refl; is_rank = refl; triton_cache = refl }

detect_cache_mode_iff_example : (detect_cache_mode root vllm_disk ≡ vllm) ↔ (
    (path_exists root vllm_disk ≡ true)
    × (is_dir (root // "torch_compile_cache") vllm_disk ≡ true)
    × (h : String) × (n : String) × IsRankCache root vllm_disk h n)
detect_cache_mode_iff_example = detect_cache_mode_iff root vllm_disk
