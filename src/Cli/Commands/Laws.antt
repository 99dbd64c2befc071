-- ===== src/Cli/Commands/Laws.antt =====
-- What the commands (cli/main.py) print and do.
use mathlib.Core.List.{Mem, Perm}
use mcu.Base.{ℕ, ◌≡◌, refl, ◌↔◌, Bool, true, false, not, Option, none, some, List, ◌∷◌, length}
use mcu.Base.{ok, err, exit, Error, Eq, if◌then◌else◌, ◌==◌, nat_eq, Ordered}
use mcu.Base.Members.{IsOrderBy}
use mcu.Data.Rows.{KernelKey, VllmKey, Row, Tables, kernel_key_eq, vllm_key_eq}
use mcu.Data.Search.{NewestFirst, search}
use mcu.Base.{keep}
use mcu.Data.Search.Laws.{search_lem, search_kept}
use mcu.Data.Search.Matches.{Matches}
use mcu.Cache.Disk.{Disk, path_exists}
use mcu.Cache.Identifier.{Mode, triton, vllm}
use mcu.Services.Strategy.{Strategy, triton_strategy, vllm_strategy, path_str}
use mcu.Services.Prune.{Env}
use mcu.Services.Prune.Marks.{TritonGet, IsPruned}
use mcu.Services.Prune.Triton.{keys_of, prune_full}
use mcu.Services.Prune.Vllm.{VllmGet, prune_vllm_raises, failure, dirs_of_row}
use mcu.Cli.Options.{get_older_younger, check_hits_num}
use mcu.Cli.Commands.{CommonSearchOptions, Settings, table, none_matched, pruned_fully}
use mcu.Cli.Commands.{
  or_cache_dir, dir_str, check_options, criteria_of, execute_search, execute_prune, prune_with,
}
use mcu.Cli.Commands.{report_result, report_stats, report_error, ensure_db}

-- The options pass the tests, and give the cutoffs `w`.
pub record Accepted (s : Settings) (o : CommonSearchOptions) (m : Mode) (w : Option ℕ × Option ℕ)
    : Type 0 where
  pub checked : check_options s o m ≡ ok tt
  pub cutoffs : get_older_younger s.decimal s.now o.older_than o.younger_than ≡ ok w

module _ (s : Settings) (o : CommonSearchOptions) (w : Option ℕ × Option ℕ) where
  -- A search whose options are accepted prints exactly the rows of the table that match all of them,
  -- the newest first.
  pub search_command :
      (m : Mode) (env : Env KernelKey) (order : List (Row KernelKey) → List (Row KernelKey))
      (t : Tables KernelKey)
      → Accepted s o m w
      → IsOrderBy NewestFirst order
      → env.search ≡ search order none
      → (rows : List (Row KernelKey)) × (execute_search s env o m t ≡ table rows)
        × ((r : Row KernelKey)
            → Mem r rows ↔ (
                Mem r t.kernels
                × Matches (λ k. k.cache_dir) (criteria_of o (dir_str o.cache_dir) w) r))
        × Ordered NewestFirst rows
  unfolding execute_search
  search_command m env order t a b e =
      let c = criteria_of o (dir_str o.cache_dir) w in
      let (rows, sorted) = search_lem order c t b in
      (search order none c t, rw (execute_search, a.checked, a.cutoffs, e) refl, rows, sorted)

  -- A full prune in Triton mode that is confirmed, whose options are accepted and whose directory is
  -- there prints the number of rows of the table that match all options and stand under that
  -- directory, or that none does. The kernels of these rows are gone from the tables, and the rest of
  -- the tables and of the disk, outside their directories, is as it was. ORDER BY must sort, and
  -- session.get must find rows by their keys.
  pub prune_command_full :
      (env : Env KernelKey) (g : TritonGet env)
      (order : List (Row KernelKey) → List (Row KernelKey)) (d : Disk) (t : Tables KernelKey)
      → Accepted s o triton w
      → IsOrderBy NewestFirst order
      → env.search ≡ search order none
      → path_exists (or_cache_dir s triton o.cache_dir) d ≡ true
      → let dir = or_cache_dir s triton o.cache_dir in
        let out = execute_prune s triton_strategy env o true false true d t in
        let criteria = criteria_of o (some (path_str dir)) w in
        (rows : List (Row KernelKey)) × (p : Row KernelKey → Bool) × ((r : Row KernelKey)
          → (p r ≡ true) ↔ Matches (λ k. k.cache_dir) criteria r)
        × Perm rows (keep p t.kernels)
        × (out.0 ≡ (if length rows == 0 then none_matched else pruned_fully (length rows)))
        × IsPruned dir env (keys_of dir env g rows) t out.2 d out.1
  unfolding execute_prune prune_with report_result report_stats triton_strategy criteria_of
  prune_command_full env g order d t a b q there =
      let dir = or_cache_dir s triton o.cache_dir in
      let criteria = criteria_of o (some (path_str dir)) w in
      let (n, e, p) = prune_full dir env g (criteria_of o none w) d t in
      let (p', iff, kept) = search_kept order criteria t b in
      (
        env.search criteria t,
        p',
        iff,
        rw q kept,
        rw (execute_prune, prune_with, a.checked, there, a.cutoffs, e) refl,
        rw (execute_prune, prune_with, a.checked, there, a.cutoffs) p,
      )

  -- In vLLM mode the command, where it finds a kernel and is confirmed, prints the error that the prune
  -- raises, and changes neither the disk nor the tables.
  pub prune_command_vllm :
      (env : Env VllmKey) (g : VllmGet env) (fully : Bool) (d : Disk) (t : Tables VllmKey)
      (r : Row VllmKey) (rows : List (Row VllmKey))
      → Accepted s o vllm w
      → path_exists (or_cache_dir s vllm o.cache_dir) d ≡ true
      → env.search (criteria_of o (some (path_str (or_cache_dir s vllm o.cache_dir))) w) t
        ≡ r ∷ rows
      → execute_prune s vllm_strategy env o fully false true d t
        ≡ (report_error (failure (dirs_of_row (or_cache_dir s vllm o.cache_dir) r d)), d, t)
  unfolding execute_prune prune_with report_result report_error vllm_strategy criteria_of
  prune_command_vllm env g fully d t r rows a there h =
      let dir = or_cache_dir s vllm o.cache_dir in
      let e = prune_vllm_raises dir env g (criteria_of o none w) (not fully) d t r rows h in
      rw (execute_prune, prune_with, a.checked, there, a.cutoffs, e) refl

-- The tests pass where the database is there and the bounds are in order.
pub check_options-there :
    (s : Settings) (o : CommonSearchOptions) (m : Mode)
    → s.db_exists m ≡ true
    → check_hits_num o.cache_hit_higher o.cache_hit_lower ≡ true
    → check_options s o m ≡ ok tt
unfolding check_options ensure_db
check_options-there s o m there h = rw (check_options, ensure_db, there, h) refl

pub check_options-missing :
    (s : Settings) (o : CommonSearchOptions) (m : Mode)
    → s.db_exists m ≡ false
    → check_options s o m ≡ err (exit 1)
unfolding check_options ensure_db
check_options-missing s o m missing = rw (check_options, ensure_db, missing) refl

-- A command whose tests fail prints or exits, and does nothing.
pub execute_prune-refused :
    {K : Type 0} ⦃e : Eq K⦄ (s : Settings) (strategy : Strategy K) (env : Env K)
    (o : CommonSearchOptions) (full deduplicate auto_confirm : Bool) (d : Disk) (t : Tables K)
    (x : Error)
    → check_options s o strategy.mode ≡ err x
    → execute_prune s strategy env o full deduplicate auto_confirm d t ≡ (report_error x, d, t)
unfolding execute_prune
execute_prune-refused s strategy env o full deduplicate auto_confirm d t x h =
    rw (execute_prune, h) refl
