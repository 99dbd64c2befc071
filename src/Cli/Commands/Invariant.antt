-- ===== src/Cli/Commands/Invariant.antt =====
-- A prune command (cli/main.py) keeps the tables well formed, in either mode.
use mcu.Base.{Bool, not, none, Eq, Result-cases, Bool-cases, inl, inr}
use mcu.Models.{FilePath}
use mcu.Data.Rows.{Tables}
use mcu.Data.Upsert.Invariant.{IsWellFormed}
use mcu.Cache.Disk.{Disk, path_exists}
use mcu.Services.Strategy.{Strategy}
use mcu.Services.Prune.{Env}
use mcu.Services.Prune.Invariant.{prune-IsWellFormed}
use mcu.Services.Deduplicate.Invariant.{deduplicate_kernels-IsWellFormed}
use mcu.Cli.Options.{get_older_younger}
use mcu.Cli.Commands.{CommonSearchOptions, Settings, or_cache_dir, check_options, criteria_of}
use mcu.Cli.Commands.{prune_with, execute_prune}

module _ {K : Type 0} ⦃e : Eq K⦄ (s : Settings) (strategy : Strategy K) (env : Env K)
    (o : CommonSearchOptions) (full deduplicate auto_confirm : Bool) (d : Disk) (t : Tables K) where
  prune_with-IsWellFormed :
      (dir : FilePath)
      → IsWellFormed t
      → IsWellFormed (prune_with s strategy env o dir full deduplicate auto_confirm d t).2
  unfolding prune_with
  prune_with-IsWellFormed dir h = elim (Bool-cases deduplicate) [
    | inl y ↦
        rw (prune_with, y) (deduplicate_kernels-IsWellFormed strategy dir env auto_confirm d t h)
    | inr n ↦ elim (Result-cases (get_older_younger s.decimal s.now o.older_than o.younger_than)) [
      | inl (x, p) ↦ rw (prune_with, n, p) h
      | inr (window, p) ↦
          rw (prune_with, n, p)
            (prune-IsWellFormed strategy dir env (criteria_of o none window) (not full) auto_confirm
              d t h)
    ]
  ]

  -- Whatever its options and its report.
  pub execute_prune-IsWellFormed :
      IsWellFormed t
      → IsWellFormed (execute_prune s strategy env o full deduplicate auto_confirm d t).2
  unfolding execute_prune
  execute_prune-IsWellFormed h =
      let dir = or_cache_dir s strategy.mode o.cache_dir in
      elim (Result-cases (check_options s o strategy.mode)) [
        | inl (x, p) ↦ rw (execute_prune, p) h
        | inr (u, p) ↦ elim (Bool-cases (path_exists dir d)) [
          | inl y ↦ rw (execute_prune, p, y) (prune_with-IsWellFormed dir h)
          | inr n ↦ rw (execute_prune, p, n) h
        ]
      ]
