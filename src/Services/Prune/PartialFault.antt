-- ===== src/Services/Prune/PartialFault.antt =====
-- A partial prune in Triton mode (services/prune.py) that meets a file in place of a directory:
-- `iterdir` raises, and the session is closed without a commit.
use mathlib.Core.List.{map-append}
use mcu.Base.{ℕ, ◌+◌, ◌≡◌, refl, ◌∙◌, ap, true, none, Result, err, os_error}
use mcu.Base.{List, [], ◌∷◌, ◌++◌, map, length, arith, if◌then◌else◌, string_eq}
use mcu.Models.{FilePath, SearchCriteria}
use mcu.Data.Rows.{Row, Tables, KernelKey, kernel_key_eq}
use mcu.Cache.Disk.{Disk, node_at, is_file}
use mcu.Cache.Paths.{child_name-sibling}
use mcu.Cache.Deletion.{ir_exts}
use mcu.Cache.Deletion.Laws.{has_suffix}
use mcu.Cache.Deletion.Single.{single, single-refused}
use mcu.Cache.Identifier.{KernelIdentifier, get_kernel_directories}
use mcu.Services.Strategy.{triton_strategy}
use mcu.Services.Prune.{
  Env, World, begin, prune, prune_found, prune_loop, finish, delete_kernel_unified,
}
use mcu.Services.Prune.Marks.{TritonGet, key, triton_identifier}
use mcu.Services.Prune.IrStep.{dir_of, after_ir, delete_ir}
use mcu.Services.Prune.IrMarks.{gone, after_ir-IrMarked}
use mcu.Services.Prune.IrMarks.{IrMarked}
use mcu.Services.Prune.IrLoop.{NoFiles, NoFiles-after, IrMarked-refl, IrMarked-cons}
use mcu.Services.Prune.Partial.{partial-eq}
use mcu.Services.Prune.Triton.{found}

module _ (cache_dir : FilePath) (env : Env KernelKey) (g : TritonGet env) where
  delete_ir_raises :
      (i : KernelIdentifier) (w : World KernelKey)
      → is_file (dir_of cache_dir env i) w.disk ≡ true
      → delete_kernel_unified triton_strategy cache_dir env i true w ≡ (err os_error, w)
  unfolding delete_kernel_unified triton_strategy get_kernel_directories
  delete_ir_raises i w h =
      rw
        (
          g.finds (key cache_dir i) w.tables,
          delete_kernel_unified,
          single-refused env.os ir_exts (dir_of cache_dir env i) w.disk h,
        )
        refl

  is_file-after :
      (i j : KernelIdentifier) (w v : World KernelKey)
      → IrMarked cache_dir env (i ∷ []) w v
      → is_file (dir_of cache_dir env j) w.disk ≡ true
      → is_file (dir_of cache_dir env j) v.disk ≡ true
  unfolding has_suffix
  is_file-after i j w v m h =
      ground
        (arith, m.disk (dir_of cache_dir env j), child_name-sibling cache_dir i.hash_key j.hash_key)

  loop_raises :
      (is js : List KernelIdentifier) (i : KernelIdentifier) (freed : ℕ) (w : World KernelKey)
      → NoFiles cache_dir env is w.disk
      → is_file (dir_of cache_dir env i) w.disk ≡ true
      → (x : World KernelKey) × (prune_loop triton_strategy cache_dir env
            (is ++ (i ∷ js))
            true
            freed
            w
          ≡ (err os_error, x))
        × IrMarked cache_dir env is w x
  unfolding prune_loop
  loop_raises [] js i freed w h f =
      let e = delete_ir_raises i w f in
      (
        w,
        rw (e, ap (λ (r : Result ℕ × World KernelKey). r.1) e, prune_loop) refl,
        IrMarked-refl cache_dir env w,
      )
  loop_raises (j ∷ is) js i freed w (hj, h) f =
      let v : World KernelKey = after_ir cache_dir env j w in
      let m = after_ir-IrMarked cache_dir env j w hj in
      let e = delete_ir cache_dir env g j w hj in
      let n = (single env.os ir_exts (dir_of cache_dir env j) w.disk).freed in
      let (x, p, marked) =
        loop_raises is js i (freed + n) v (NoFiles-after cache_dir env j w v m is h)
          (is_file-after j i w v m f) in
      (
        x,
        rw (e, ap (λ (r : Result ℕ × World KernelKey). r.1) e, prune_loop) p,
        IrMarked-cons cache_dir env j w v m is x marked,
      )

  loop_of_rows :
      (before after : List (Row KernelKey)) (r : Row KernelKey) (d : Disk) (t : Tables KernelKey)
      → NoFiles cache_dir env (map triton_identifier before) d
      → is_file (dir_of cache_dir env (triton_identifier r)) d ≡ true
      → (x : World KernelKey) × (prune_loop triton_strategy cache_dir env
            (map triton_identifier (before ++ (r ∷ after)))
            true
            0
            (begin d t)
          ≡ (err os_error, x))
        × IrMarked cache_dir env (map triton_identifier before) (begin d t) x
  loop_of_rows before after r d t h f = rw (map-append triton_identifier before (r ∷ after)) (
      loop_raises (map triton_identifier before) (map triton_identifier after) (triton_identifier r)
        0 (begin d t) h f)

  found-eq-loop :
      (before after : List (Row KernelKey)) (r : Row KernelKey) (d : Disk) (t : Tables KernelKey)
      → let is = map triton_identifier (before ++ (r ∷ after)) in
        prune_found triton_strategy cache_dir env true true is d t
        ≡ finish triton_strategy cache_dir
            (length is)
            (prune_loop triton_strategy cache_dir env is true 0 (begin d t))
  unfolding prune
  found-eq-loop [] after r d t = refl
  found-eq-loop (b ∷ before) after r d t = refl

  -- A partial prune that is confirmed in Triton mode and comes to a kernel whose directory is a file
  -- raises `OSError`. The tables are as they were, also for the kernels before it, whose IR files
  -- are gone from the disk by then, and nothing else is.
  pub prune_partial_raises :
      (criteria : SearchCriteria) (d : Disk) (t : Tables KernelKey)
      (before after : List (Row KernelKey)) (r : Row KernelKey)
      → found cache_dir env g criteria t ≡ before ++ (r ∷ after)
      → NoFiles cache_dir env (map triton_identifier before) d
      → is_file (dir_of cache_dir env (triton_identifier r)) d ≡ true
      → (d' : Disk) × (prune triton_strategy cache_dir env criteria true true d t
          ≡ (err os_error, d', t))
        × ((q : FilePath)
            → node_at q d' ≡ (
                if gone cache_dir env (map triton_identifier before) d q
                then none
                else node_at q d))
  unfolding prune
  prune_partial_raises criteria d t before after r e h f =
      let (x, p, m) = loop_of_rows before after r d t h f in
      (
        x.disk,
        partial-eq cache_dir env g criteria d t
            ∙ rw e (
                found-eq-loop before after r d t
                ∙ ap
                    (finish triton_strategy cache_dir
                      (length (map triton_identifier (before ++ (r ∷ after)))))
                    p
                ∙ ap (λ (u : Tables KernelKey). (err os_error, x.disk, u)) m.tables),
        m.disk,
      )
