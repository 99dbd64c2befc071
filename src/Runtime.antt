-- ===== src/Runtime.antt =====
-- The statistics of cache accesses: `RuntimeStatsCollector` (runtime/tracker.py). Its lock lets one
-- call in at a time, so a history is the sequence of its calls.
pub mod Counts
pub mod History
pub mod Invariant
pub mod Manager
pub mod Threads
use mcu.Base.{ℕ, ◌+◌, String, Bool, true, false, ◌&&◌, Option, none, some, List, [], ◌∷◌, ◌++◌, map}
use mcu.Base.{max, all_but_last, Error, ◌==◌, string_eq, if◌then◌else◌}
use mcu.Base.Dict.{Dict}
use mcu.Models.{FilePath}
use mcu.Data.Rows.{Columns, KernelKey, Row, Tables}
use mcu.Services.Strategy.{path_str}

-- `CacheAccessRecord`
pub record CacheAccessRecord : Type 0 where
  pub cache_key : String
  pub hit : Bool
  pub timestamp : ℕ
  pub cache_dir : FilePath

-- `StatsDict`
pub record Stats : Type 0 where
  pub hits : ℕ
  pub last_access : ℕ

pub record Collector : Type 0 where
  pub enabled : Bool
  pub pending : List CacheAccessRecord
  pub tables : Tables KernelKey

-- `cache_dir or get_cache_dir()`
abbrev pub or_default : FilePath → Option FilePath → FilePath
or_default default none = default
or_default default (some p) = p

-- What one record does to the entry of its key.
pub count_access : CacheAccessRecord → Stats → Stats
count_access r s = record {
  hits = if r.hit then s.hits + 1 else s.hits;
  last_access = max s.last_access r.timestamp;
}

-- `stats_by_key[record.cache_key]`, created with zeros where it is not there.
pub add_record : CacheAccessRecord → Dict String Stats → Dict String Stats
unfolding count_access
add_record r [] = (r.cache_key, count_access r (record { hits = 0; last_access = 0 })) ∷ []
add_record r ((k, s) ∷ stats) =
    if k == r.cache_key then (k, count_access r s) ∷ stats else (k, s) ∷ add_record r stats

pub add_records : List CacheAccessRecord → Dict String Stats → Dict String Stats
unfolding add_record
add_records [] stats = stats
add_records (r ∷ rs) stats = add_records rs (add_record r stats)

-- `cache_dir`, which every record overwrites; `path.parent` of the root is the root.
pub last_parent : FilePath → List CacheAccessRecord → FilePath
last_parent p [] = p
last_parent p (r ∷ rs) = last_parent (all_but_last r.cache_dir) rs

-- The update of one kernel that the query of `cache_key` and `cache_dir` returns.
pub update_kernel : String → String → Stats → Row KernelKey → Row KernelKey
update_kernel dir k s r =
    if r.key.hash == k && r.key.cache_dir == dir
    then record r {
      columns = record (r.columns) {
        runtime_hits = r.columns.runtime_hits + s.hits;
        last_access_time = s.last_access;
      };
    }
    else r

pub update_kernels : String → Dict String Stats → List (Row KernelKey) → List (Row KernelKey)
unfolding update_kernel
update_kernels dir [] rows = rows
update_kernels dir ((k, s) ∷ stats) rows =
    update_kernels dir stats (map (update_kernel dir k s) rows)

-- The `try` block of `_persist_to_database` on the pending records.
pub persist_records : List CacheAccessRecord → Collector → Collector
unfolding update_kernels add_records last_parent
persist_records [] c = c
persist_records (r ∷ rs) c = record c {
  pending = [];
  tables = record (c.tables) {
    kernels =
        update_kernels (path_str (last_parent [] (r ∷ rs))) (add_records (r ∷ rs) [])
          c.tables.kernels;
  };
}

-- `_persist_to_database`, where `fault` is an exception of a query or of the commit: it is logged,
-- the session is closed without a commit, and the records stay pending.
pub persist_to_database : Option Error → Collector → Collector
unfolding persist_records
persist_to_database (some e) c = c
persist_to_database none c = persist_records c.pending c

-- `record_access`, at the time `now`
pub record_access :
    FilePath → Option Error → String → Bool → ℕ → Option FilePath → Collector → Collector
unfolding persist_to_database
record_access default fault k hit now dir c =
    let r : CacheAccessRecord = record {
      cache_key = k;
      hit = hit;
      timestamp = now;
      cache_dir = or_default default dir;
    } in
    if c.enabled
    then persist_to_database fault (record c { pending = c.pending ++ (r ∷ []) })
    else c

-- `enable`, `disable` and `flush`
pub enable : Collector → Collector
enable c = record c { enabled = true }

pub disable : Collector → Collector
disable c = record c { enabled = false }

unfoldable pub flush : Option Error → Collector → Collector
unfolding persist_to_database
flush fault c = persist_to_database fault c

-- A call of `record_access`, with the fault of its attempt to persist.
pub record Call : Type 0 where
  pub fault : Option Error
  pub cache_key : String
  pub hit : Bool
  pub now : ℕ
  pub cache_dir : Option FilePath

-- The calls one after another.
unfoldable pub run : FilePath → List Call → Collector → Collector
unfolding record_access
run default [] c = c
run default (a ∷ calls) c =
    run default calls (record_access default a.fault a.cache_key a.hit a.now a.cache_dir c)
