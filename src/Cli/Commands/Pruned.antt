-- ===== src/Cli/Commands/Pruned.antt =====
-- What a search finds after a full prune with the same options (cli/main.py).
use mcu.Base.{ℕ, ◌≡◌, refl, sym, ap, ◌∙◌, true, false, Option, none, some, List, []}
use mcu.Base.Members.{IsOrderBy}
use mcu.Models.{FilePath}
use mcu.Data.Rows.{KernelKey, Row, Tables, kernel_key_eq}
use mcu.Data.Search.{NewestFirst, search}
use mcu.Data.Upsert.Invariant.{IsWellFormed}
use mcu.Cache.Disk.{Disk, path_exists}
use mcu.Cache.Identifier.{triton}
use mcu.Services.Strategy.{triton_strategy}
use mcu.Services.Prune.{Env, prune}
use mcu.Services.Prune.Marks.{TritonGet}
use mcu.Services.Prune.Matching.{search-pruned}
use mcu.Cli.Commands.{CommonSearchOptions, Settings, table, criteria_of}
use mcu.Services.Strategy.{path_str}
use mcu.Cli.Commands.{dir_str, or_cache_dir, execute_search, execute_prune, prune_with}
use mcu.Cli.Commands.Laws.{Accepted}

module _ (o : CommonSearchOptions) (dir : FilePath) (older younger : Option ℕ) (env : Env KernelKey)
    (d : Disk) (t : Tables KernelKey) where
  -- The tables after a full prune that goes ahead.
  execute_prune-full :
      (s : Settings)
      → Accepted s o triton (older, younger)
      → path_exists (or_cache_dir s triton o.cache_dir) d ≡ true
      → (execute_prune s triton_strategy env o true false true d t).2
        ≡ (prune triton_strategy
            (or_cache_dir s triton o.cache_dir)
            env
            (criteria_of o none (older, younger))
            false
            true
            d
            t).2
  unfolding execute_prune prune_with triton_strategy
  execute_prune-full s a there = rw (execute_prune, prune_with, a.checked, there, a.cutoffs) refl

  execute_search-table :
      (s : Settings) (u : Tables KernelKey) (rows : List (Row KernelKey))
      → Accepted s o triton (older, younger)
      → env.search (criteria_of o (dir_str o.cache_dir) (older, younger)) u ≡ rows
      → execute_search s env o triton u ≡ table rows
  unfolding execute_search
  execute_search-table s u rows a h = rw (execute_search, a.checked, a.cutoffs) (ap table h)

  -- After a full prune that is confirmed, a search with the same options prints no kernel.
  pub search-after_prune :
      (s s' : Settings) (order : List (Row KernelKey) → List (Row KernelKey))
      → TritonGet env
      → IsOrderBy NewestFirst order
      → env.search ≡ search order none
      → IsWellFormed t
      → Accepted s o triton (older, younger)
      → Accepted s' o triton (older, younger)
      → o.cache_dir ≡ some dir
      → path_exists dir d ≡ true
      → execute_search s' env o triton (execute_prune s triton_strategy env o true false true d t).2
        ≡ table []
  unfolding criteria_of
  search-after_prune s s' order g b q w a a' e there =
      let root = or_cache_dir s triton o.cache_dir in
      let same : root ≡ dir = ap (or_cache_dir s triton) e in
      let criteria = criteria_of o none (older, younger) in
      let here : dir_str o.cache_dir ≡ some (path_str root) =
        ap dir_str e ∙ ap (λ p. some (path_str p)) (sym same) in
      ap (execute_search s' env o triton)
        (execute_prune-full s a (ap (λ p. path_exists p d) same ∙ there))
      ∙ execute_search-table s' _ [] a' (
          ap
            (λ p.
              env.search (record criteria { cache_dir = p })
                (prune triton_strategy root env criteria false true d t).2)
            here
          ∙ search-pruned root env g order criteria d t b q w)
