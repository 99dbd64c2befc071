-- ===== src/Program.antt =====
-- The whole program between its runs: the commands of cli/main.py on the disk and the two databases
-- (data/database.py), the processes whose cache accesses runtime/tracker.py stores, and the others
-- that write to the disk. Every event brings its own settings, clock, faults and answers.
pub mod Laws
pub mod Pruned
pub mod Unopened
pub mod Indexed
pub mod IndexedVllm
use mcu.Base.{
  String, Bool, true, false, Option, none, some, List, [], ◌∷◌, Error, Result, ok, err, ◌>>=◌,
}
use mcu.Base.{if◌then◌else◌}
use mcu.Models.{FilePath}
use mcu.Data.Rows.{KernelKey, VllmKey, Tables, kernel_key_eq, vllm_key_eq}
use mcu.Cache.Disk.{Disk, path_exists}
use mcu.Cache.Identifier.{Mode, triton, vllm}
use mcu.Services.Strategy.{triton_strategy, vllm_strategy}
use mcu.Services.Prune.{Env}
use mcu.Runtime.{CacheAccessRecord, Collector, Call, record_access}
use mcu.Cli.Commands.{Settings, CommonSearchOptions, Report, or_cache_dir, resolve_mode}
use mcu.Cli.Commands.{check_options, execute_search, execute_prune}
use mcu.Cli.Options.{get_older_younger}
use mcu.Cli.Index.{IndexEnv, IndexReport, execute_index}

-- A database that was never opened has no file. `pending` are the records of the process that is
-- being tracked.
pub record State : Type 0 where
  pub disk : Disk
  pub triton_db : Option (Tables KernelKey)
  pub vllm_db : Option (Tables VllmKey)
  pub pending : List CacheAccessRecord

-- What one run of a command meets; which databases exist is the state's to say.
pub record Run : Type 0 where
  pub settings : Settings
  pub index_env : IndexEnv
  pub env : Env KernelKey
  pub vllm_env : Env VllmKey

-- The commands that use a database, with their options.
pub data Command : Type 0 where
  index : Option String → Option FilePath → Command
  list : CommonSearchOptions → Command
  prune : CommonSearchOptions → Bool → Bool → Bool → Command

-- What is printed; an invalid mode before any database is chosen.
pub data Output : Type 0 where
  indexing : IndexReport → Output
  triton_report : Report KernelKey → Output
  vllm_report : Report VllmKey → Output
  invalid_mode : Error → Output

module _ {K : Type 0} where
  -- `_ensure_schema`: a new file has empty tables.
  unfoldable pub opened : Option (Tables K) → Tables K
  opened none = record { kernels = []; files = []; next_id = 1 }
  opened (some t) = t

  abbrev pub is_there : Option (Tables K) → Bool
  is_there none = false
  is_there (some t) = true

  -- A command that has opened its database leaves it there, new or old, with the tables `t`.
  pub stored : Bool → Option (Tables K) → Tables K → Option (Tables K)
  stored false db t = db
  stored true db t = some t

-- `get_db_path(mode).exists()`
abbrev pub exists_in : State → Mode → Bool
exists_in st triton = is_there st.triton_db
exists_in st vllm = is_there st.vllm_db

abbrev pub settings_in : State → Run → Settings
settings_in st r = record (r.settings) { db_exists = exists_in st }

-- The mode whose database `BaseService.__init__` opens, once the repository has its directory.
pub opens : Settings → Option String → Option FilePath → Disk → Option Mode
opens s mode cache_dir d = elim (resolve_mode s mode cache_dir d) [
  | err e ↦ none
  | ok m ↦ if path_exists (or_cache_dir s m cache_dir) d then some m else none
]

-- `index`
pub run_index : Run → Option String → Option FilePath → State → Output × State
unfolding opened opens
run_index r mode cache_dir st =
    let s = settings_in st r in
    let (report, t, v) =
      execute_index s r.index_env mode cache_dir st.disk (opened st.triton_db, opened st.vllm_db) in
    (
      indexing report,
      elim (opens s mode cache_dir st.disk) [
        | none ↦ st
        | some triton ↦ record st { triton_db = some t }
        | some vllm ↦ record st { vllm_db = some v }
      ],
    )

-- Whether `list` comes as far as `SearchService`, which opens the database.
pub list_opens : Settings → CommonSearchOptions → Mode → Bool
unfolding check_options
list_opens s o m =
    elim (do
      x ← check_options s o m
      get_older_younger s.decimal s.now o.older_than o.younger_than) [
        | err e ↦ false
        | ok window ↦ true
      ]

-- Whether `prune` comes as far as `PruningService`, which opens the database once the repository has
-- its directory.
pub prune_opens : Settings → CommonSearchOptions → Mode → Disk → Bool
unfolding check_options
prune_opens s o m d = elim (check_options s o m) [
  | err e ↦ false
  | ok u ↦ path_exists (or_cache_dir s m o.cache_dir) d
]

-- `search`, the command `list`
unfoldable pub run_list : Run → CommonSearchOptions → State → Output × State
unfolding execute_search opened stored list_opens resolve_mode
run_list r o st =
    let s = settings_in st r in
    elim (resolve_mode s o.mode o.cache_dir st.disk) [
      | err e ↦ (invalid_mode e, st)
      | ok triton ↦
          let t = opened st.triton_db in
          (
            triton_report (execute_search s r.env o triton t),
            record st { triton_db = stored (list_opens s o triton) st.triton_db t },
          )
      | ok vllm ↦
          let v = opened st.vllm_db in
          (
            vllm_report (execute_search s r.vllm_env o vllm v),
            record st { vllm_db = stored (list_opens s o vllm) st.vllm_db v },
          )
    ]

-- `prune`
pub run_prune : Run → CommonSearchOptions → Bool → Bool → Bool → State → Output × State
unfolding opened stored prune_opens resolve_mode triton_strategy vllm_strategy
run_prune r o full deduplicate auto_confirm st =
    let s = settings_in st r in
    elim (resolve_mode s o.mode o.cache_dir st.disk) [
      | err e ↦ (invalid_mode e, st)
      | ok triton ↦
          let (report, d, t) =
            execute_prune s triton_strategy r.env o full deduplicate auto_confirm st.disk
              (opened st.triton_db) in
          (
            triton_report report,
            record st {
              disk = d;
              triton_db = stored (prune_opens s o triton st.disk) st.triton_db t;
            },
          )
      | ok vllm ↦
          let (report, d, t) =
            execute_prune s vllm_strategy r.vllm_env o full deduplicate auto_confirm st.disk
              (opened st.vllm_db) in
          (
            vllm_report report,
            record st { disk = d; vllm_db = stored (prune_opens s o vllm st.disk) st.vllm_db t },
          )
    ]

pub run_command : Run → Command → State → Output × State
unfolding run_index run_list run_prune
run_command r (index mode cache_dir) st = run_index r mode cache_dir st
run_command r (list o) st = run_list r o st
run_command r (prune o full deduplicate auto_confirm) st =
    run_prune r o full deduplicate auto_confirm st

-- What can happen next. A tracker starts with nothing pending; what a process before it had pending
-- is lost. The directory is `get_cache_dir()` of the process.
pub data Event : Type 0 where
  command : Run → Command → Event
  disk_changes : Disk → Event
  tracker_starts : Event
  accesses : FilePath → Call → Event

-- `record_access` of a collector, for which `RuntimeStatsCollector()` has opened the database.
pub track : FilePath → Call → State → State
unfolding opened
track default a st =
    let c : Collector = record {
      enabled = true;
      pending = st.pending;
      tables = opened st.triton_db;
    } in
    let c' = record_access default a.fault a.cache_key a.hit a.now a.cache_dir c in
    record st { triton_db = some c'.tables; pending = c'.pending }

pub step : Event → State → State
unfolding run_command track opened
step (command r c) st = (run_command r c st).1
step (disk_changes d) st = record st { disk = d }
step tracker_starts st = record st { triton_db = some (opened st.triton_db); pending = [] }
step (accesses default a) st = track default a st

pub session : List Event → State → State
unfolding step
session [] st = st
session (e ∷ es) st = session es (step e st)
