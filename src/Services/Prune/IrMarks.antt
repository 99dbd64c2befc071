-- ===== src/Services/Prune/IrMarks.antt =====
-- What a deletion of IR files in Triton mode (services/prune.py) marks in the session and removes
-- from the disk.
use mathlib.Core.List.{Mem}
use mcu.Base.{ℕ, String, ◌≡◌, refl, sym, ◌≢◌, ◌∙◌, ap, Bool, false, not, ◌&&◌, ◌||◌}
use mcu.Base.{Option, none, some, arith, List, [], ◌∷◌, ◌++◌, map, keep, sum_of, inl, inr}
use mcu.Base.{◌==◌, ==_iff, string_eq, nat_eq, Bool-cases, Option-cases}
use mcu.Base.{if◌then◌else◌}
use mcu.Models.{FilePath}
use mcu.Data.Rows.{FileRow, Tables, KernelKey, kernel_key_eq}
use mcu.Data.Upsert.{files_of}
use mcu.Data.Upsert.Invariant.{UniqueIds}
use mcu.Cache.Disk.{Disk, node_at, is_dir, is_file}
use mcu.Cache.Deletion.{ir_exts}
use mcu.Cache.Deletion.Laws.{has_suffix}
use mcu.Cache.Deletion.Single.{deletes, single, single-disk, single-names}
use mcu.Cache.Identifier.{KernelIdentifier}
use mcu.Services.Session.{any_eq, row_with, resized}
use mcu.Services.Session.Marks.{any_eq-ids, resized-append}
use mcu.Services.Strategy.{triton_strategy}
use mcu.Services.Prune.{Env, World}
use mcu.Services.Prune.{delete_ir_file_records, update_total_size, named_in, size_or_zero}
use mcu.Services.Prune.Marks.{key, keys}
use mcu.Services.Prune.Committed.{any_eq-append, row_with-key}
use mcu.Services.Prune.IrStep.{dir_of, after_ir}

module _ (cache_dir : FilePath) (env : Env KernelKey) where
  -- `q` is a file that the system lets go, with an IR suffix, directly in one of the directories.
  abbrev pub in_dirs : List KernelIdentifier → Disk → FilePath → Bool
  in_dirs [] d q = false
  in_dirs (i ∷ is) d q =
      is_dir (dir_of cache_dir env i) d && has_suffix ir_exts (dir_of cache_dir env i) q
      || in_dirs is d q

  abbrev pub gone : List KernelIdentifier → Disk → FilePath → Bool
  gone is d q = in_dirs is d q && (is_file q d && not (env.os.denied q))

  abbrev pub loses_in : KernelIdentifier → Disk → Option String → Bool
  loses_in i d none = false
  loses_in i d (some n) =
      is_dir (dir_of cache_dir env i) d && deletes env.os ir_exts (dir_of cache_dir env i) n d

  -- A file row of a kernel with one of the hashes, whatever its directory, whose name is that of a
  -- file that goes.
  abbrev pub loses : List KernelIdentifier → Disk → FileRow KernelKey → Bool
  loses [] d f = false
  loses (i ∷ is) d f = f.owner.hash == i.hash_key && loses_in i d f.rel_path || loses is d f

  -- The bytes of all files that were stored with a kernel.
  abbrev pub stored_size : Tables KernelKey → KernelKey → ℕ
  stored_size t j = sum_of size_or_zero (files_of j t.files)

  pub record IrMarked (is : List KernelIdentifier) (w w' : World KernelKey) : Type 0 where
    pub tables : w'.tables ≡ w.tables
    pub deleted_kernels : w'.pending.deleted_kernels ≡ w.pending.deleted_kernels
    pub files :
        UniqueIds w.tables.files
        → (f : FileRow KernelKey) → Mem f w.tables.files
        → any_eq f.id w'.pending.deleted_files
          ≡ (any_eq f.id w.pending.deleted_files || loses is w.disk f)
    pub sizes :
        (j : KernelKey) (old : Option ℕ)
        → row_with j w.tables.kernels ≢ none
        → resized j w'.pending.sizes old ≡ (
            if any_eq j (keys cache_dir is)
            then some (stored_size w.tables j)
            else resized j w.pending.sizes old)
    pub disk :
        (q : FilePath) → node_at q w'.disk ≡ (if gone is w.disk q then none else node_at q w.disk)

  named-loses :
      (i : KernelIdentifier) (d : Disk) (o : Option String)
      → is_file (dir_of cache_dir env i) d ≡ false
      → named_in (single env.os ir_exts (dir_of cache_dir env i) d).names o ≡ loses_in i d o
  named-loses i d none h = refl
  named-loses i d (some n) h = single-names env.os ir_exts (dir_of cache_dir env i) n d h

  step_files :
      (i : KernelIdentifier) (w : World KernelKey) (f : FileRow KernelKey)
      → is_file (dir_of cache_dir env i) w.disk ≡ false
      → UniqueIds w.tables.files
      → Mem f w.tables.files
      → any_eq f.id (after_ir cache_dir env i w).pending.deleted_files
        ≡ (any_eq f.id w.pending.deleted_files || loses (i ∷ []) w.disk f)
  unfolding after_ir update_total_size delete_ir_file_records triton_strategy
  step_files i w f h u m = elim (Option-cases (row_with (key cache_dir i) w.tables.kernels)) [
    | inl e ↦ rw (e, update_total_size) marked
    | inr (r, e) ↦ rw (e, update_total_size) marked
  ]
    where
      selects : FileRow KernelKey → Bool
      selects g =
          g.owner.hash == i.hash_key
          && named_in (single env.os ir_exts (dir_of cache_dir env i) w.disk).names g.rel_path

      marked :
          any_eq f.id (w.pending.deleted_files ++ map (λ g. g.id) (keep selects w.tables.files))
          ≡ (any_eq f.id w.pending.deleted_files || loses (i ∷ []) w.disk f)
      marked = ground (
        arith,
        any_eq-append f.id w.pending.deleted_files
            (map (λ (g : FileRow KernelKey). g.id) (keep selects w.tables.files)),
        any_eq-ids selects w.tables.files u m,
        named-loses i w.disk f.rel_path h,
      )

  step_sizes :
      (i : KernelIdentifier) (w : World KernelKey) (j : KernelKey) (old : Option ℕ)
      → row_with j w.tables.kernels ≢ none
      → resized j (after_ir cache_dir env i w).pending.sizes old ≡ (
          if any_eq j (key cache_dir i ∷ [])
          then some (stored_size w.tables j)
          else resized j w.pending.sizes old)
  unfolding after_ir update_total_size delete_ir_file_records any_eq
  step_sizes i w j old there = elim (Option-cases (row_with (key cache_dir i) w.tables.kernels)) [
    | inl e ↦
        rw (e, update_total_size)
          (elim (Bool-cases (key cache_dir i == j)) [
            | inl y ↦ absurd (
                there (
                  ap (λ k. row_with k w.tables.kernels) (sym ((==_iff (key cache_dir i) j).0 y))
                  ∙ e))
            | inr n ↦ ground arith
          ])
    | inr (r, e) ↦
        rw
          (
            e,
            update_total_size,
            row_with-key (key cache_dir i) w.tables.kernels r e,
            resized-append j (key cache_dir i) (stored_size w.tables (key cache_dir i))
                w.pending.sizes old,
          )
          (elim (Bool-cases (key cache_dir i == j)) [
            | inl y ↦ ground (arith, (==_iff (key cache_dir i) j).0 y)
            | inr n ↦ ground arith
          ])
  ]

  after_ir-same :
      (i : KernelIdentifier) (w : World KernelKey)
      → ((after_ir cache_dir env i w).tables ≡ w.tables)
        × ((after_ir cache_dir env i w).pending.deleted_kernels ≡ w.pending.deleted_kernels)
        × ((after_ir cache_dir env i w).disk
            ≡ (single env.os ir_exts (dir_of cache_dir env i) w.disk).disk)
  unfolding after_ir update_total_size delete_ir_file_records
  after_ir-same i w = elim (Option-cases (row_with (key cache_dir i) w.tables.kernels)) [
    | inl e ↦ rw (e, update_total_size) (refl, refl, refl)
    | inr (r, e) ↦ rw (e, update_total_size) (refl, refl, refl)
  ]

  pub after_ir-IrMarked :
      (i : KernelIdentifier) (w : World KernelKey)
      → is_file (dir_of cache_dir env i) w.disk ≡ false
      → IrMarked (i ∷ []) w (after_ir cache_dir env i w)
  after_ir-IrMarked i w h =
      let (same_tables, same_kernels, same_disk) = after_ir-same i w in
      record {
        tables = same_tables;
        deleted_kernels = same_kernels;
        files = λ u f m. step_files i w f h u m;
        sizes = λ j old there. step_sizes i w j old there;
        disk = λ q.
            ap (node_at q) same_disk
            ∙ single-disk env.os ir_exts (dir_of cache_dir env i) q w.disk h
            ∙ ground arith;
      }
