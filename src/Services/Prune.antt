-- ===== src/Services/Prune.antt =====
-- `PruningService` (services/prune.py): pruning by criteria and pruning of duplicates. The disk
-- changes at once, the tables at the commit of the session.
pub mod Committed
pub mod Marks
pub mod IrStep
pub mod IrMarks
pub mod IrLoop
pub mod Partial
pub mod PartialFault
pub mod NoRaise
pub mod Invariant
pub mod Matching
pub mod Triton
pub mod Vllm
use mcu.Base.{ℕ, ◌+◌, String, Bool, true, false, not, ◌&&◌, ◌||◌, Option, none, some, map, keep}
use mcu.Base.{List, [], ◌∷◌, ◌++◌, length, sum_of, all_but_last, ltb, ◌==◌, Eq, string_eq, is_none}
use mcu.Base.{os_error, Result, ok, err, Error, ◌>>=◌, if◌then◌else◌}
use mcu.Base.Text.{like_suffix}
use mcu.Models.{FilePath, SearchCriteria}
use mcu.Data.Rows.{Columns, Row, FileRow, Tables, KernelKey, VllmKey}
use mcu.Data.Upsert.{files_of}
use mcu.Data.Search.{search, search_vllm}
use mcu.Data.Duplicates.{KernelDict, find_duplicates, find_vllm_duplicates}
use mcu.Cache.Disk.{Disk, Os}
use mcu.Cache.Identifier.{Mode, KernelIdentifier, get_kernel_directories}
use mcu.Cache.Identifier.{extract_identifiers_from_groups}
use mcu.Cache.Deletion.{
  Deleted, ir_exts, contains, delete_ir_files_from_dirs, delete_kernel_directories,
}
use mcu.Services.Session.{Pending, nothing, commit}
use mcu.Services.Strategy.{Strategy, path_str}

-- `self.db`, `session.get`, and the answer of the prompt to a number of kernels, of bytes and
-- `ir_only`.
pub record Env (K : Type 0) : Type 0 where
  pub search : SearchCriteria → Tables K → List (Row K)
  pub find_duplicates : Tables K → List (List KernelDict)
  pub get : List String → Tables K → Result (Option (Row K))
  pub confirm : ℕ → ℕ → Bool → Bool
  pub os : Os

pub record World (K : Type 0) : Type 0 where
  pub disk : Disk
  pub tables : Tables K
  pub pending : Pending K

-- `reclaimed` in bytes; the code divides it by 2 ** 20.
pub record PruneStats : Type 0 where
  pub pruned : ℕ
  pub reclaimed : ℕ
  pub aborted : Bool
  pub empty : Bool

abbrev pub Outcome : Type 0 → Type 0
Outcome K = Result (Option PruneStats) × Disk × Tables K

abbrev pub begin : {K : Type 0} → Disk → Tables K → World K
begin d t = record { disk = d; tables = t; pending = nothing }

abbrev pub size_or_zero : {K : Type 0} → FileRow K → ℕ
size_or_zero f = elim f.size [ none ↦ 0 | some n ↦ n ]

abbrev pub named_in : List String → Option String → Bool
named_in names none = false
named_in names (some p) = contains names p

abbrev like_any : List String → Option String → Bool
like_any exts none = false
like_any [] (some p) = false
like_any (ext ∷ exts) (some p) = like_suffix ext p || like_any exts (some p)

module _ {K : Type 0} ⦃e : Eq K⦄ (strategy : Strategy K) (cache_dir : FilePath) where
  -- `estimate_space` of `Database` and `VllmDatabase`, with `IR_EXTS`
  pub estimate_space : List String → Tables K → ℕ
  estimate_space hashes t = sum_of size_or_zero (
      keep (λ f. contains hashes (strategy.hash_of f.owner) && like_any ir_exts f.rel_path) t.files)

  -- `_delete_ir_file_records`, the deletions that it adds to the session
  pub delete_ir_file_records : KernelIdentifier → List String → World K → World K
  delete_ir_file_records i names w =
      let rows =
        keep (λ f. strategy.owns_ir_row (path_str cache_dir) i f && named_in names f.rel_path)
          w.tables.files in
      record w {
        pending = record (w.pending) {
          deleted_files = w.pending.deleted_files ++ map (λ f. f.id) rows;
        };
      }

  -- `kernel_record.total_size = sum(f.size or 0 for f in kernel_record.files)`: the collection was
  -- loaded with the record and still has the files that are marked as deleted.
  pub update_total_size : Option (Row K) → World K → World K
  update_total_size none w = w
  update_total_size (some r) w =
      let size = sum_of size_or_zero (files_of r.key w.tables.files) in
      record w { pending = record (w.pending) { sizes = w.pending.sizes ++ ((r.key, size) ∷ []) } }

  -- `_delete_ir_only_unified`, which raises where a kernel directory is none
  pub delete_ir_only :
      Os → KernelIdentifier → List FilePath → Option (Row K) → World K → Result ℕ × World K
  unfolding delete_ir_file_records update_total_size
  delete_ir_only os i dirs kernel_record w =
      let r = delete_ir_files_from_dirs os dirs ir_exts w.disk in
      let w1 : World K = record w { disk = r.disk } in
      let w2 : World K = elim r.names [ [] ↦ w1 | n ∷ ns ↦ delete_ir_file_records i (n ∷ ns) w1 ] in
      if r.raised then (err os_error, w1) else (ok r.freed, update_total_size kernel_record w2)

  pub mark_deleted : Option (Row K) → World K → World K
  mark_deleted none w = w
  mark_deleted (some r) w = record w {
    pending = record (w.pending) { deleted_kernels = w.pending.deleted_kernels ++ (r.key ∷ []) };
  }

  -- `_delete_full_kernel_unified`
  pub delete_full_kernel : Os → List FilePath → Option (Row K) → World K → Result ℕ × World K
  unfolding mark_deleted
  delete_full_kernel os dirs kernel_record w =
      let (freed, disk) = delete_kernel_directories os dirs w.disk in
      (ok freed, mark_deleted kernel_record (record w { disk = disk }))

  -- `_delete_kernel_unified`, with `_get_kernel_record`: what it returns or raises, and the world then.
  pub delete_kernel_unified : Env K → KernelIdentifier → Bool → World K → Result ℕ × World K
  unfolding delete_ir_only delete_full_kernel
  delete_kernel_unified env i ir_only w =
      elim (get_kernel_directories cache_dir strategy.mode i w.disk) [
        | err x ↦ (err x, w)
        | ok dirs ↦ elim (env.get (strategy.record_key (path_str cache_dir) i) w.tables) [
          | err x ↦ (err x, w)
          | ok kernel_record ↦
              if ir_only
              then delete_ir_only env.os i dirs kernel_record w
              else delete_full_kernel env.os dirs kernel_record w
        ]
      ]

  -- The loop of `prune`. An exception ends it: the session is closed without a commit, and the disk
  -- stays as it is by then.
  pub prune_loop : Env K → List KernelIdentifier → Bool → ℕ → World K → Result ℕ × World K
  prune_loop env [] ir_only freed w = (ok freed, w)
  prune_loop env (i ∷ is) ir_only freed w =
      let (r, w') = delete_kernel_unified env i ir_only w in
      elim r [ err x ↦ (err x, w') | ok n ↦ prune_loop env is ir_only (freed + n) w' ]

  pub identifiers_of_rows : List (Row K) → Result (List KernelIdentifier)
  identifiers_of_rows [] = ok []
  identifiers_of_rows (r ∷ rows) = do
    i ← strategy.extract_identifier r
    is ← identifiers_of_rows rows
    ok (i ∷ is)

  -- The end of the `with` block: the commit, or the exception.
  pub finish : ℕ → Result ℕ × World K → Outcome K
  finish n (ok freed, w) = (
    ok (some (record { pruned = n; reclaimed = freed; aborted = false; empty = false })),
    w.disk,
    commit w.pending w.tables,
  )
  finish n (err x, w) = (err x, w.disk, w.tables)

  abbrev none_found : PruneStats
  none_found = record { pruned = 0; reclaimed = 0; aborted = false; empty = false }

  pub prune_found : Env K → Bool → Bool → List KernelIdentifier → Disk → Tables K → Outcome K
  unfolding finish prune_loop estimate_space
  prune_found env ir_only auto_confirm [] d t = (ok (some none_found), d, t)
  prune_found env ir_only auto_confirm (i ∷ is) d t =
      let n = length (i ∷ is) in
      let reclaimed = estimate_space (map (λ i. i.hash_key) (i ∷ is)) t in
      if not auto_confirm && not (env.confirm n reclaimed ir_only)
      then (ok none, d, t)
      else finish n (prune_loop env (i ∷ is) ir_only 0 (begin d t))

  -- `prune`, which sets the directory of the criteria
  pub prune : Env K → SearchCriteria → Bool → Bool → Disk → Tables K → Outcome K
  unfolding prune_found identifiers_of_rows
  prune env criteria ir_only auto_confirm d t =
      elim (identifiers_of_rows
        (env.search (record criteria { cache_dir = some (path_str cache_dir) }) t)) [
          | err x ↦ (err x, d, t)
          | ok is ↦ prune_found env ir_only auto_confirm is d t
        ]
