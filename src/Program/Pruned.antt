-- ===== src/Program/Pruned.antt =====
-- What the command `list` prints after the command `prune --full --yes` (cli/main.py).
use mcu.Base.{ℕ, ◌≡◌, refl, ap, ◌∙◌, true, false, Option, none, some, List, [], ok}
use mcu.Base.{string_eq}
use mcu.Base.Members.{IsOrderBy}
use mcu.Models.{FilePath}
use mcu.Data.Rows.{KernelKey, VllmKey, Row, Tables, kernel_key_eq}
use mcu.Data.Search.{NewestFirst, search}
use mcu.Cache.Disk.{Disk, path_exists}
use mcu.Cache.Identifier.{triton}
use mcu.Services.Prune.Marks.{TritonGet}
use mcu.Services.Strategy.{triton_strategy}
use mcu.Cli.Options.{get_older_younger, check_hits_num}
use mcu.Cli.Commands.{CommonSearchOptions, Settings, table, resolve_mode, execute_search}
use mcu.Cli.Commands.{execute_prune}
use mcu.Cli.Commands.Laws.{Accepted, check_options-there}
use mcu.Cli.Commands.Pruned.{search-after_prune}
use mcu.Program.{State, Run, triton_report, settings_in, opened, stored}
use mcu.Program.{run_list, run_prune, prune_opens}
use mcu.Data.Upsert.Invariant.{IsWellFormed}
use mcu.Runtime.{CacheAccessRecord}

resolve_triton :
    (s : Settings) (o : CommonSearchOptions) (d : Disk)
    → o.mode ≡ some "triton"
    → resolve_mode s o.mode o.cache_dir d ≡ ok triton
unfolding resolve_mode
resolve_triton s o d e = rw e refl

-- A state in which the Triton database is there.
abbrev pub having :
    Disk → Tables KernelKey → Option (Tables VllmKey) → List CacheAccessRecord → State
having d t v pending = record { disk = d; triton_db = some t; vllm_db = v; pending = pending }

module _ (r : Run) (o : CommonSearchOptions) (dir : FilePath) (older younger : Option ℕ) where
  -- The options are in order, and name Triton mode and a directory.
  pub record IsTritonQuery : Type 0 where
    pub mode : o.mode ≡ some "triton"
    pub cache_dir : o.cache_dir ≡ some dir
    pub bounds : check_hits_num o.cache_hit_higher o.cache_hit_lower ≡ true
    pub cutoffs :
        get_older_younger r.settings.decimal r.settings.now o.older_than o.younger_than
        ≡ ok (older, younger)

  module _ (q : IsTritonQuery) (v : Option (Tables VllmKey))
      (pending : List CacheAccessRecord) where
    abbrev settings_of : Disk → Tables KernelKey → Settings
    settings_of d t = settings_in (having d t v pending) r

    in_order :
        (d : Disk) (t : Tables KernelKey) → Accepted (settings_of d t) o triton (older, younger)
    in_order d t = record {
      checked = check_options-there (settings_of d t) o triton refl q.bounds;
      cutoffs = q.cutoffs;
    }

    run_list-triton :
        (d : Disk) (t : Tables KernelKey)
        → (run_list r o (having d t v pending)).0
          ≡ triton_report (execute_search (settings_of d t) r.env o triton t)
    unfolding run_list opened
    run_list-triton d t = rw (run_list, resolve_triton (settings_of d t) o d q.mode) refl

    prune_opens-there :
        (s : Settings) (d : Disk)
        → Accepted s o triton (older, younger)
        → path_exists dir d ≡ true
        → prune_opens s o triton d ≡ true
    unfolding prune_opens
    prune_opens-there s d a there = rw (prune_opens, a.checked, q.cache_dir) there

    run_prune-triton :
        (d : Disk) (t : Tables KernelKey)
        → path_exists dir d ≡ true
        → let out = execute_prune (settings_of d t) triton_strategy r.env o true false true d t in
          (run_prune r o true false true (having d t v pending)).1 ≡ having out.1 out.2 v pending
    unfolding run_prune opened stored
    run_prune-triton d t there =
        rw
          (
            run_prune,
            resolve_triton (settings_of d t) o d q.mode,
            prune_opens-there (settings_of d t) d (in_order d t) there,
          )
          refl

    -- Where the Triton database is there and well formed, `prune --full --yes` with options in order,
    -- of Triton mode and with a directory that is there, and then `list` with the same options at the
    -- same moment prints no kernel, whatever the system refused to remove.
    pub list_after_prune :
        (order : List (Row KernelKey) → List (Row KernelKey)) (d : Disk) (t : Tables KernelKey)
        → TritonGet r.env
        → IsOrderBy NewestFirst order
        → r.env.search ≡ search order none
        → IsWellFormed t
        → path_exists dir d ≡ true
        → (run_list r o (run_prune r o true false true (having d t v pending)).1).0
          ≡ triton_report (table [])
    list_after_prune order d t g b e w there =
        let s = settings_of d t in
        let (report, d', t') = execute_prune s triton_strategy r.env o true false true d t in
        ap (λ st. (run_list r o st).0) (run_prune-triton d t there)
        ∙ run_list-triton d' t'
        ∙ ap triton_report (
            search-after_prune o dir older younger r.env d t s (settings_of d' t') order g b e w
              (in_order d t) (in_order d' t') q.cache_dir there)
