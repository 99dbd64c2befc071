-- ===== src/Program/IndexedVllm.antt =====
-- The command `list` after the command `index` in vLLM mode (cli/main.py).
use mathlib.Core.List.{Mem}
use mcu.Base.{◌≡◌, refl, ap, ◌∙◌, true, none, some, List, string_eq, nat_eq, ==_iff}
use mcu.Services.Strategy.{path_str}
use mathlib.Core.Bool.{Bool-set}
use mcu.Base.Members.{IsOrderBy, of_All}
use mcu.Models.{FilePath}
use mcu.Data.Rows.{VllmKey, Row, Tables, vllm_key_eq}
use mcu.Data.Search.{NewestFirst, search_vllm}
use mcu.Cache.Disk.{path_exists}
use mcu.Index.Repository.{VllmKernel, vllm_kernels}
use mcu.Index.Repository.Roots.{HasRoot, vllm_kernels-HasRoot}
use mcu.Index.Service.{reindex_vllm_kernels, in_directory}
use mcu.Index.Service.Latest.{yielded}
use mcu.Index.Service.Vllm.{vllm_stored_under, reindex_vllm_search}
use mcu.Cli.Options.{get_older_younger, check_hits_num}
use mcu.Cli.Commands.{CommonSearchOptions, table, resolve_mode, execute_search, criteria_of}
use mcu.Cli.Index.Laws.{execute_index-vllm_tables}
use mcu.Program.{State, Run, vllm_report, settings_in, opened, opens, run_index, run_list}
use mcu.Program.Indexed.{all_in}

-- `list --mode vllm --cache-dir dir`
abbrev pub all_vllm_in : FilePath → CommonSearchOptions
all_vllm_in dir = record (all_in dir) { mode = some "vllm" }

module _ (r : Run) (dir : FilePath) (st : State) where
  abbrev walk : List VllmKernel
  walk = yielded (vllm_kernels r.index_env.validate r.index_env.files dir st.disk)

  -- The state after `index --mode vllm --cache-dir dir`.
  abbrev indexed_state : State
  indexed_state = (run_index r (some "vllm") (some dir) st).1

  abbrev indexed_tables : Tables VllmKey
  indexed_tables =
      (reindex_vllm_kernels r.index_env.fault r.index_env.clock
        (vllm_kernels r.index_env.validate r.index_env.files dir st.disk) 0 (opened st.vllm_db)).1

  run_index-vllm :
      path_exists dir st.disk ≡ true → indexed_state ≡ record st { vllm_db = some indexed_tables }
  unfolding run_index opens resolve_mode
  run_index-vllm there =
      let s = settings_in st r in
      rw (indexed_state, run_index, opens, there)
        (ap (λ t. record st { vllm_db = some t })
          (execute_index-vllm_tables s r.index_env (some "vllm") (some dir) st.disk
            (opened st.triton_db) (opened st.vllm_db) refl there))

  run_list-all_vllm :
      (t : Tables VllmKey)
      → (run_list r (all_vllm_in dir) (record st { vllm_db = some t })).0
        ≡ vllm_report (table (r.vllm_env.search (in_directory dir) t))
  unfolding run_list opened resolve_mode execute_search get_older_younger check_hits_num criteria_of
  run_list-all_vllm t = refl

  -- `index` in vLLM mode on a directory that is there, where no insertion raises, and then `list` of
  -- that directory: the list has a row under the key of each kernel that was read before the reading
  -- ended or raised: the directory, the kernel's hash directory, its rank and its own key.
  pub list_after_vllm_index :
      (order : List (Row VllmKey) → List (Row VllmKey)) (k : VllmKernel)
      → IsOrderBy NewestFirst order
      → r.vllm_env.search ≡ search_vllm order none
      → r.index_env.fault ≡ (λ k. none)
      → path_exists dir st.disk ≡ true
      → Mem k walk
      → (rows : List (Row VllmKey)) × ((run_list r (all_vllm_in dir) indexed_state).0
          ≡ vllm_report (table rows))
        × (row : Row VllmKey) × Mem row rows
        × (row.key ≡ vllm_stored_under k)
  list_after_vllm_index order k o e f there m =
      let ys = vllm_kernels r.index_env.validate r.index_env.files dir st.disk in
      let root =
        of_All (HasRoot r.index_env.validate r.index_env.files dir st.disk) (λ v. Bool-set _ _)
          (yielded ys) (vllm_kernels-HasRoot r.index_env.validate r.index_env.files dir st.disk)
          m in
      let (row, there', same) : (row : Row VllmKey) × Mem row
            (search_vllm order none (in_directory dir) indexed_tables)
          × (row.key ≡ vllm_stored_under k) =
        rw f (
          reindex_vllm_search r.index_env.clock order ys (opened st.vllm_db) k dir o m
            ((==_iff (vllm_stored_under k).vllm_cache_root (path_str dir)).0 root)) in
      (
        search_vllm order none (in_directory dir) indexed_tables,
        ap (λ s. (run_list r (all_vllm_in dir) s).0) (run_index-vllm there)
            ∙ run_list-all_vllm indexed_tables
            ∙ ap (λ find. vllm_report (table (find (in_directory dir) indexed_tables))) e,
        row,
        there',
        same,
      )
