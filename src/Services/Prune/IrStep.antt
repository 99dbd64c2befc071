-- ===== src/Services/Prune/IrStep.antt =====
-- One deletion of IR files in Triton mode (services/prune.py), and the world after it.
use mathlib.Core.List.{append-nil}
use mcu.Base.{String, ◌≡◌, refl, Bool, true, false, ◌&&◌}
use mcu.Base.{arith, List, [], ◌∷◌, keep, ok, inl, inr}
use mcu.Base.{◌==◌, string_eq, nat_eq, Option-cases}
use mcu.Base.Text.{suffix}
use mcu.Models.{FilePath}
use mcu.Data.Rows.{FileRow, KernelKey, kernel_key_eq}
use mcu.Cache.Disk.{is_file, ◌//◌}
use mcu.Cache.Deletion.{ir_exts, contains}
use mcu.Cache.Paths.{child_name-grandchild}
use mcu.Cache.Deletion.Laws.{has_suffix}
use mcu.Cache.Deletion.Single.{single, single-raised}
use mcu.Cache.Identifier.{KernelIdentifier, get_kernel_directories}
use mcu.Services.Session.{row_with}
use mcu.Services.Strategy.{triton_strategy, path_str}
use mcu.Services.Prune.{Env, World, delete_kernel_unified, delete_ir_only}
use mcu.Services.Prune.{delete_ir_file_records, update_total_size, named_in}
use mcu.Services.Prune.Marks.{TritonGet, key}

pub has_suffix-grandchild :
    (exts : List String) (c : FilePath) (a b n : String)
    → has_suffix exts (c // a) ((c // b) // n) ≡ (a == b && contains exts (suffix n))
unfolding has_suffix
has_suffix-grandchild exts c a b n = ground (arith, child_name-grandchild c a b n)

module _ {K : Type 0} where
  keep-false :
      (p : FileRow K → Bool) (files : List (FileRow K))
      → keep (λ f. p f && named_in [] f.rel_path) files ≡ []
  keep-false p [] = refl
  keep-false p (f ∷ files) = elim (Option-cases f.rel_path) [
    | inl z ↦ ground (arith, keep-false p files)
    | inr (n, z) ↦ ground (arith, keep-false p files)
  ]

module _ (cache_dir : FilePath) (env : Env KernelKey) where
  abbrev pub dir_of : KernelIdentifier → FilePath
  dir_of i = cache_dir // i.hash_key

  abbrev after_disk : KernelIdentifier → World KernelKey → World KernelKey
  after_disk i w = record w { disk = (single env.os ir_exts (dir_of i) w.disk).disk }

  -- What one deletion leaves.
  unfoldable pub after_ir : KernelIdentifier → World KernelKey → World KernelKey
  after_ir i w =
      update_total_size triton_strategy cache_dir (row_with (key cache_dir i) w.tables.kernels) (
        delete_ir_file_records triton_strategy cache_dir i
          (single env.os ir_exts (dir_of i) w.disk).names (after_disk i w))

  no_names :
      (i : KernelIdentifier) (w : World KernelKey)
      → delete_ir_file_records triton_strategy cache_dir i [] w ≡ w
  unfolding delete_ir_file_records
  no_names i w =
      rw
        (
          keep-false (λ f. triton_strategy.owns_ir_row (path_str cache_dir) i f) w.tables.files,
          append-nil w.pending.deleted_files,
        )
        refl

  pub delete_ir :
      TritonGet env
      → (i : KernelIdentifier) (w : World KernelKey) → is_file (dir_of i) w.disk ≡ false
      → delete_kernel_unified triton_strategy cache_dir env i true w
        ≡ (ok (single env.os ir_exts (dir_of i) w.disk).freed, after_ir i w)
  unfolding delete_kernel_unified triton_strategy get_kernel_directories after_ir
  delete_ir g i w h =
      rw (g.finds (key cache_dir i) w.tables, delete_kernel_unified)
        (go (single env.os ir_exts (dir_of i) w.disk).names refl)
    where
      go :
          (names : List String)
          → (single env.os ir_exts (dir_of i) w.disk).names ≡ names
          → delete_ir_only triton_strategy cache_dir env.os i
              (dir_of i ∷ [])
              (row_with (key cache_dir i) w.tables.kernels)
              w
            ≡ (ok (single env.os ir_exts (dir_of i) w.disk).freed, after_ir i w)
      go [] p =
          rw (single-raised env.os ir_exts (dir_of i) w.disk h, p, no_names i (after_disk i w)) refl
      go (n ∷ ns) p = rw (single-raised env.os ir_exts (dir_of i) w.disk h, p) refl
