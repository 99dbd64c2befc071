-- ===== src/Cli/Commands.antt =====
-- `resolve_mode` and `ensure_db` (cli/cli_helpers.py), `_execute_prune_command` and
-- `_execute_search_command` (cli/main.py). What is printed is a value; the text is left out.
pub mod Laws
pub mod Safety
pub mod Pruned
pub mod Invariant
use mcu.Base.{
  ℕ, String, Bool, true, false, not, Option, none, some, List, [], ◌∷◌, ◌==◌, nat_eq, string_eq,
}
use mcu.Base.{Eq, Result, ok, err, Error, exit, value_error, file_not_found, ◌>>=◌, if◌then◌else◌}
use mcu.Base.Int.{ℤ}
use mcu.Models.{FilePath, SearchCriteria}
use mcu.Data.Rows.{Row, Tables}
use mcu.Cache.Disk.{Disk, path_exists}
use mcu.Cache.Identifier.{Mode, triton, vllm}
use mcu.Cache.Mode.{detect_cache_mode}
use mcu.Cli.Options.{get_older_younger, check_hits_num}
use mcu.Services.Strategy.{Strategy, path_str}
use mcu.Services.Prune.{Env, PruneStats, Outcome, prune}
use mcu.Services.Deduplicate.{deduplicate_kernels}

-- `CommonSearchOptions`
pub record CommonSearchOptions : Type 0 where
  pub name : Option String
  pub backend : Option String
  pub arch : Option String
  pub older_than : Option String
  pub younger_than : Option String
  pub cache_dir : Option FilePath
  pub cache_hit_lower : Option ℤ
  pub cache_hit_higher : Option ℤ
  pub mode : Option String

-- What a command prints or exits with.
pub data Report (K : Type 0) : Type 0 where
  table : List (Row K) → Report K
  error unexpected : Error → Report K
  exits : ℕ → Report K
  cancelled none_matched : Report K
  pruned_irs pruned_fully : ℕ → Report K

-- The settings, the clock, which databases exist, and Unicode's decimal digits.
pub record Settings : Type 0 where
  pub model_cache_dir : FilePath
  pub model_cache_dir_vllm : FilePath
  pub db_exists : Mode → Bool
  pub now : ℕ
  pub decimal : ℕ → Option ℕ

-- `get_cache_dir`
abbrev pub get_cache_dir : Settings → Mode → FilePath
get_cache_dir s vllm = s.model_cache_dir_vllm
get_cache_dir s triton = s.model_cache_dir

abbrev pub or_cache_dir : Settings → Mode → Option FilePath → FilePath
or_cache_dir s m none = get_cache_dir s m
or_cache_dir s m (some p) = p

-- A mode that is given must be one of `VALID_MODES`; an empty one counts as not given.
unfoldable pub resolve_mode : Settings → Option String → Option FilePath → Disk → Result Mode
unfolding detect_cache_mode
resolve_mode s none dir d = ok (detect_cache_mode (or_cache_dir s triton dir) d)
resolve_mode s (some m) dir d =
    if m == ""
    then ok (detect_cache_mode (or_cache_dir s triton dir) d)
    else if m == "triton"
    then ok triton
    else if m == "vllm"
    then ok vllm
    else err value_error

-- `ensure_db`
pub ensure_db : Settings → Mode → Result (Unit {0})
ensure_db s m = if s.db_exists m then ok tt else err (exit 1)

-- The tests that both commands begin with.
unfoldable pub check_options : Settings → CommonSearchOptions → Mode → Result (Unit {0})
unfolding ensure_db check_hits_num
check_options s o m = do
  x ← ensure_db s m
  if check_hits_num o.cache_hit_higher o.cache_hit_lower then ok tt else err value_error

unfoldable pub criteria_of :
    CommonSearchOptions → Option String → Option ℕ × Option ℕ → SearchCriteria
criteria_of o dir (older, younger) = record {
  name = o.name;
  cache_dir = dir;
  backend = o.backend;
  arch = o.arch;
  older_than_timestamp = older;
  younger_than_timestamp = younger;
  cache_hit_lower = o.cache_hit_lower;
  cache_hit_higher = o.cache_hit_higher;
}

abbrev pub dir_str : Option FilePath → Option String
dir_str none = none
dir_str (some p) = some (path_str p)

module _ {K : Type 0} where
  -- The `except` clauses at the end of either command.
  unfoldable pub report_error : Error → Report K
  report_error value_error = error value_error
  report_error file_not_found = error file_not_found
  report_error (exit n) = exits n
  report_error e = unexpected e

  -- What is printed for the statistics; `full` is the option.
  pub report_stats : Bool → Option PruneStats → Report K
  report_stats full none = cancelled
  report_stats full (some s) =
      if s.pruned == 0
      then none_matched
      else if full
      then pruned_fully s.pruned
      else pruned_irs s.pruned

  report_result : Bool → Result (Option PruneStats) → Report K
  unfolding report_error report_stats
  report_result full (err e) = report_error e
  report_result full (ok stats) = report_stats full stats

  -- `_execute_search_command`, once the mode is known
  unfoldable pub execute_search :
      Settings → Env K → CommonSearchOptions → Mode → Tables K → Report K
  unfolding check_options report_error criteria_of
  execute_search s env o m t =
      elim (do
        x ← check_options s o m
        get_older_younger s.decimal s.now o.older_than o.younger_than) [
          | err e ↦ report_error e
          | ok window ↦ table (env.search (criteria_of o (dir_str o.cache_dir) window) t)
        ]

module _ {K : Type 0} ⦃e : Eq K⦄ where
  -- The service is made with its directory, which must exist.
  prune_with :
      Settings
      → Strategy K
      → Env K
      → CommonSearchOptions
      → FilePath
      → Bool
      → Bool
      → Bool
      → Disk
      → Tables K
      → Outcome K
  unfolding criteria_of
  prune_with s strategy env o dir full deduplicate auto_confirm d t =
      if deduplicate
      then deduplicate_kernels strategy dir env auto_confirm d t
      else (elim (get_older_younger s.decimal s.now o.older_than o.younger_than) [
        | err x ↦ (err x, d, t)
        | ok window ↦ prune strategy dir env (criteria_of o none window) (not full) auto_confirm d t
      ])

  -- `_execute_prune_command`, once the mode is known
  pub execute_prune :
      Settings
      → Strategy K
      → Env K
      → CommonSearchOptions
      → Bool
      → Bool
      → Bool
      → Disk
      → Tables K
      → Report K × Disk × Tables K
  unfolding check_options prune_with report_result
  execute_prune s strategy env o full deduplicate auto_confirm d t =
      let dir = or_cache_dir s strategy.mode o.cache_dir in
      elim (check_options s o strategy.mode) [
        | err x ↦ (report_error x, d, t)
        | ok u ↦
            if path_exists dir d
            then (let (r, d', t') =
                  prune_with s strategy env o dir full deduplicate auto_confirm d t in
                (report_result full r, d', t'))
            else (error file_not_found, d, t)
      ]
