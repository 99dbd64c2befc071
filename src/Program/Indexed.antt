-- ===== src/Program/Indexed.antt =====
-- What the command `list` prints after the command `index` (cli/main.py).
use mathlib.Core.List.{Mem}
use mcu.Base.{◌≡◌, refl, ap, ◌∙◌, true, none, some, List}
use mcu.Base.{string_eq}
use mcu.Base.Members.{IsOrderBy}
use mcu.Models.{FilePath, Kernel}
use mcu.Data.Rows.{KernelKey, Row, Tables, kernel_key_eq}
use mcu.Data.Search.{NewestFirst, search}
use mcu.Data.Upsert.Laws.{key_of}
use mcu.Cache.Disk.{path_exists}
use mcu.Services.Strategy.{path_str}
use mcu.Index.Repository.{kernels}
use mcu.Index.Service.{reindex_kernels, in_directory}
use mcu.Index.Service.Latest.{yielded}
use mcu.Index.Service.Laws.{reindex_search}
use mcu.Cli.Options.{get_older_younger, check_hits_num}
use mcu.Cli.Commands.{CommonSearchOptions, table, resolve_mode, execute_search, criteria_of}
use mcu.Cli.Index.Laws.{execute_index-tables}
use mcu.Program.{State, Run, triton_report, settings_in, opened, opens, run_index, run_list}

-- `list --mode triton --cache-dir dir`
abbrev pub all_in : FilePath → CommonSearchOptions
all_in dir = record {
  name = none;
  backend = none;
  arch = none;
  older_than = none;
  younger_than = none;
  cache_dir = some dir;
  cache_hit_lower = none;
  cache_hit_higher = none;
  mode = some "triton";
}

module _ (r : Run) (dir : FilePath) (st : State) where
  -- The state after `index --mode triton --cache-dir dir`.
  abbrev indexed_state : State
  indexed_state = (run_index r (some "triton") (some dir) st).1

  abbrev indexed_tables : Tables KernelKey
  indexed_tables =
      (reindex_kernels r.index_env.fault r.index_env.clock dir
        (kernels r.index_env.validate r.index_env.files dir st.disk) 0 (opened st.triton_db)).1

  run_index-triton :
      path_exists dir st.disk ≡ true → indexed_state ≡ record st { triton_db = some indexed_tables }
  unfolding run_index opens resolve_mode
  run_index-triton there =
      let s = settings_in st r in
      rw (indexed_state, run_index, opens, there)
        (ap (λ t. record st { triton_db = some t })
          (execute_index-tables s r.index_env (some "triton") (some dir) st.disk
            (opened st.triton_db) (opened st.vllm_db) refl there))

  run_list-all :
      (t : Tables KernelKey)
      → (run_list r (all_in dir) (record st { triton_db = some t })).0
        ≡ triton_report (table (r.env.search (in_directory dir) t))
  unfolding run_list opened resolve_mode execute_search get_older_younger check_hits_num criteria_of
  run_list-all t = refl

  -- `index` in Triton mode on a directory that is there, where no insertion raises, and then `list` of
  -- that directory: there is a database from then on, if there was none, and the list has, for each
  -- kernel that was read before the reading ended or raised, a row with its hash and the directory.
  pub list_after_index :
      (order : List (Row KernelKey) → List (Row KernelKey)) (k : Kernel)
      → IsOrderBy NewestFirst order
      → r.env.search ≡ search order none
      → r.index_env.fault ≡ (λ k. none)
      → path_exists dir st.disk ≡ true
      → Mem k (yielded (kernels r.index_env.validate r.index_env.files dir st.disk))
      → (rows : List (Row KernelKey)) × ((run_list r (all_in dir) indexed_state).0
          ≡ triton_report (table rows))
        × (row : Row KernelKey) × Mem row rows
        × (row.key ≡ key_of k.hash (path_str dir))
  list_after_index order k o e f there m =
      let walk = kernels r.index_env.validate r.index_env.files dir st.disk in
      let (row, there', same) : (row : Row KernelKey) × Mem row
            (search order none (in_directory dir) indexed_tables)
          × (row.key ≡ key_of k.hash (path_str dir)) =
        rw f (reindex_search r.index_env.clock dir order walk (opened st.triton_db) k o m) in
      (
        search order none (in_directory dir) indexed_tables,
        ap (λ s. (run_list r (all_in dir) s).0) (run_index-triton there)
            ∙ run_list-all indexed_tables
            ∙ ap (λ find. triton_report (table (find (in_directory dir) indexed_tables))) e,
        row,
        there',
        same,
      )
