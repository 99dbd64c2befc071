-- ===== src/Lib.antt =====
-- mcm (mcm/model_cache_manager), the manager of Triton and vLLM kernel caches: it indexes cache
-- directories into SQLite, searches the index, and prunes kernels from the index and the disk;
-- and triton_util, helpers for writing Triton kernels.
--
-- Data flows from a cache directory through a repository into the tables; the services read the
-- tables and remove from both. What stands where:
--
-- Models: models/kernel.py and models/criteria.py; Models/Json: decoded JSON values.
-- Data/Rows: the columns and keys of data/db_models.py. Data/Upsert: `upsert_from_dto` and
-- `insert_kernel`. Data/Search: `search` of data/database.py and `build_common_search_filters`.
-- Data/Duplicates: `find_duplicates` and what it calls.
-- Cache/Disk: what the code uses of pathlib and shutil. Cache/Identifier: kernel identifiers and
-- their directories. Cache/Deletion: the two deletions of utils/utils.py.
-- Services/Session: the session of SQLAlchemy. Services/Strategy: strategies/*.py.
-- Services/Prune and Services/Deduplicate: services/prune.py.
-- Services/Prune/NoRaise and Services/Deduplicate/NoRaise: which of their steps can raise.
-- Cache/Mode: `detect_cache_mode`. Runtime: `RuntimeStatsCollector` of runtime/tracker.py;
-- Runtime/Threads: the steps of threads that share it; Runtime/Manager: `MCMTrackingCacheManager`.
-- Index/Files: what the repositories read. Index/Validator: data/kernel_validator.py and
-- plugins/*.py. Index/Repository: data/cache_repo.py. Index/Service: services/index.py and
-- `reindex_kernels`. Index/Plugins: `_get_plugins` of data/cache_repo.py, called by many threads.
-- Services/Warm: `WarmupService` of services/warm.py and the warm command of cli/main.py.
-- Cli/Options: `parse_duration`, `get_older_younger` and `check_hits_num` of utils/utils.py.
-- Cli/Commands: the prune and search commands of cli/main.py, with cli/cli_helpers.py.
-- Cli/Display: `format_size` and `mod_time_handle` of utils/utils.py and `_display_kernels_table`.
-- Cli/Index: the index command of cli/main.py, with services/base.py.
-- TritonUtil: triton_util/triton_util/coding.py, the chunks that Triton kernels load and store;
-- TritonUtil/Chunk: their addresses and masks; TritonUtil/Vector: chunks of vectors.
-- TritonUtil/Debugging: triton_util/triton_util/debugging.py, the rules on program ids.
-- Index/Validator/Types: the file types of the plugins.
-- Program: sessions of the whole program, the commands of cli/main.py in any order on the disk and
-- the two databases, with tracked processes that store their accesses in between.
-- Tests: runs of the model, and each result applied to concrete data.
--
-- A table is the list of its rows; sizes and instants are natural numbers; bytes freed are not
-- rounded to megabytes. Instants and durations are in microseconds. The code of mcm has no bounded
-- integers; the laws on the indices of a Triton kernel hold below 2^31, and those on its addresses
-- below 2^61 elements. Loops over lists are structural recursion; the only fuel is that of the
-- reference `classes`, the length of the list.
--
-- Parameters: the ORDER BY of the database, the order in which Python walks a set, `session.get`,
-- the answer of the prompt, the normal form that `==` compares metadata by, the local time, what the
-- operating system refuses to remove, the settings, the present moment, the decimal digits and the
-- white space of Unicode, the parsed JSON of the files and pydantic; podman, the cache manager of
-- Triton, the timestamp and the archive of a warm-up; `triton.language`. An exception of a query or
-- a commit is an argument of insertion, search, duplicate search and statistics; the session of a
-- prune commits.
--
-- Not modelled: logging, Rich output, engine set-up and environment variables. The ids of file rows
-- only grow, while SQLite gives the largest one again once its row is deleted; a `maxnreg` that is
-- None is stored as some null; sizes from 2^53 bytes on are not rounded as floats are.
pub mod Base
pub mod Models
pub mod Data
pub mod Cache
pub mod Services
pub mod Runtime
pub mod Cli
pub mod Index
pub mod TritonUtil
pub mod Program
pub mod Tests
