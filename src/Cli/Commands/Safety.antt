-- ===== src/Cli/Commands/Safety.antt =====
-- A prune command (cli/main.py) that prints an error, or exits, has changed nothing.
use mathlib.Core.Bool.{false≢true}
use mcu.Base.{◌||◌, ◌≡◌, refl, ◌⊎◌, inl, inr, Bool, true, false, Option, none, some}
use mcu.Base.{ok, err, is_ok, Result-cases, Bool-cases, ◌==◌, nat_eq}
use mcu.Models.{FilePath}
use mcu.Data.Rows.{KernelKey, Tables, kernel_key_eq}
use mcu.Cache.Disk.{Disk, path_exists}
use mcu.Cache.Identifier.{triton}
use mcu.Services.Strategy.{triton_strategy}
use mcu.Services.Prune.{Env, PruneStats, Outcome}
use mcu.Services.Prune.Marks.{TritonGet}
use mcu.Services.Prune.NoRaise.{prune-is_ok}
use mcu.Services.Deduplicate.NoRaise.{deduplicate_kernels-IsSafe, IsSafe}
use mcu.Cli.Options.{get_older_younger}
use mcu.Cli.Commands.{CommonSearchOptions, Settings, Report, error, unexpected, exits}
use mcu.Cli.Commands.{or_cache_dir, check_options, criteria_of, execute_prune, prune_with}
use mcu.Cli.Commands.{report_result, report_stats}

abbrev pub is_error : Report KernelKey → Bool
is_error (error e) = true
is_error (unexpected e) = true
is_error (exits n) = true
is_error _ = false

stats-is_error :
    (full : Bool) (stats : Option PruneStats) → is_error (report_stats full stats) ≡ false
unfolding report_stats
stats-is_error full none = refl
stats-is_error full (some s) = elim (Bool-cases (s.pruned == 0)) [
  | inl z ↦ rw (z, report_stats) refl
  | inr z ↦ elim (Bool-cases full) [
    | inl f ↦ rw (report_stats, z, f) refl
    | inr f ↦ rw (report_stats, z, f) refl
  ]
]

abbrev pub Untouched : Disk → Tables KernelKey → Report KernelKey × Disk × Tables KernelKey → Type 0
Untouched d t out = (is_error out.0 ≡ false) ⊎ ((out.1 ≡ d) × (out.2 ≡ t))

report-Untouched :
    (full : Bool) (d : Disk) (t : Tables KernelKey) (o : Outcome KernelKey)
    → IsSafe d t o
    → Untouched d t (report_result full o.0, o.1, o.2)
unfolding report_result
report-Untouched full d t (ok stats, d', t') h = inl (stats-is_error full stats)
report-Untouched full d t (err e, d', t') h = inr h

ok-IsSafe :
    (d : Disk) (t : Tables KernelKey) (o : Outcome KernelKey) → is_ok o.0 ≡ true → IsSafe d t o
ok-IsSafe d t (ok s, d', t') h = tt
ok-IsSafe d t (err e, d', t') h = absurd (false≢true h)

module _ (s : Settings) (o : CommonSearchOptions) (env : Env KernelKey) (g : TritonGet env) where
  prune_with-IsSafe :
      (dir : FilePath) (full deduplicate auto_confirm : Bool) (d : Disk) (t : Tables KernelKey)
      → (full || deduplicate) ≡ true
      → IsSafe d t (prune_with s triton_strategy env o dir full deduplicate auto_confirm d t)
  unfolding prune_with
  prune_with-IsSafe dir full true auto_confirm d t h =
      deduplicate_kernels-IsSafe dir env auto_confirm d t
  prune_with-IsSafe dir false false auto_confirm d t h = absurd (false≢true h)
  prune_with-IsSafe dir true false auto_confirm d t h =
      elim (Result-cases (get_older_younger s.decimal s.now o.older_than o.younger_than)) [
        | inl (e, p) ↦ rw (prune_with, p) (refl, refl)
        | inr (w, p) ↦
            rw (prune_with, p)
              (ok-IsSafe d t _ (prune-is_ok dir env g (criteria_of o none w) auto_confirm d t))
      ]

  -- In Triton mode, where the session answers and commits, a prune command with --full or
  -- --deduplicate that prints an error or exits has left the disk and the tables as they were,
  -- whatever its other options.
  pub prune_command-Untouched :
      (full deduplicate auto_confirm : Bool) (d : Disk) (t : Tables KernelKey)
      → (full || deduplicate) ≡ true
      → Untouched d t (execute_prune s triton_strategy env o full deduplicate auto_confirm d t)
  unfolding execute_prune triton_strategy
  prune_command-Untouched full deduplicate auto_confirm d t h =
      elim (Result-cases (check_options s o triton)) [
        | inl (e, p) ↦ rw (execute_prune, p) (inr (refl, refl))
        | inr (u, p) ↦ elim (Bool-cases (path_exists (or_cache_dir s triton o.cache_dir) d)) [
          | inl y ↦
              rw (execute_prune, p, y)
                (report-Untouched full d t _ (
                  prune_with-IsSafe (or_cache_dir s triton o.cache_dir) full deduplicate
                    auto_confirm d t h))
          | inr n ↦ rw (execute_prune, p, n) (inr (refl, refl))
        ]
      ]
