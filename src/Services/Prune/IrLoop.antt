-- ===== src/Services/Prune/IrLoop.antt =====
-- The loop of a partial prune in Triton mode (services/prune.py): deletions of IR files in a row.
use mathlib.Core.List.{Mem}
use mathlib.Core.Path.{subst}
use mcu.Data.Upsert.Invariant.{UniqueIds}
use mcu.Base.{Result, sym, ◌≢◌, ℕ, ◌+◌, ◌≡◌, refl, ◌∙◌, ap, true, false, ◌||◌, ◌&&◌}
use mcu.Base.{arith, List, [], ◌∷◌, ok, All, ◌==◌, ==_iff, string_eq}
use mcu.Base.{none, Option-cases, inl, inr}
use mcu.Models.{FilePath}
use mcu.Data.Rows.{FileRow, KernelKey, kernel_key_eq}
use mcu.Cache.Disk.{Disk, is_dir, is_file, ◌//◌}
use mcu.Cache.Deletion.{ir_exts}
use mcu.Cache.Deletion.Single.{single}
use mcu.Cache.Identifier.{KernelIdentifier}
use mcu.Services.Session.{any_eq, row_with}
use mcu.Services.Strategy.{triton_strategy}
use mcu.Services.Prune.{Env, World, prune_loop}
use mcu.Services.Prune.Marks.{TritonGet}
use mcu.Services.Prune.IrStep.{dir_of, after_ir, delete_ir, has_suffix-grandchild}
use mcu.Services.Prune.IrMarks.{in_dirs, loses_in, loses, IrMarked, after_ir-IrMarked}

module _ (cache_dir : FilePath) (env : Env KernelKey) where
  -- No directory of a kernel is a file.
  abbrev pub NoFiles : List KernelIdentifier → Disk → Type 0
  NoFiles is d = All (λ i. is_file (dir_of cache_dir env i) d ≡ false) is

  pub IrMarked-refl : (w : World KernelKey) → IrMarked cache_dir env [] w w
  unfolding any_eq
  IrMarked-refl w = record {
    tables = refl;
    deleted_kernels = refl;
    files = λ u f m. ground arith;
    sizes = λ j old there. refl;
    disk = λ q. refl;
  }

  module _ (i : KernelIdentifier) (w v : World KernelKey)
      (m : IrMarked cache_dir env (i ∷ []) w v) where
    same_dirs : (q : FilePath) → is_dir q v.disk ≡ is_dir q w.disk
    same_dirs q = ground (arith, m.disk q)

    pub NoFiles-after : (is : List KernelIdentifier) → NoFiles is w.disk → NoFiles is v.disk
    NoFiles-after [] h = tt
    NoFiles-after (j ∷ is) (hj, h) =
        (ground (arith, m.disk (dir_of cache_dir env j)), NoFiles-after is h)

    in_dirs-after :
        (is : List KernelIdentifier) (q : FilePath)
        → in_dirs cache_dir env is v.disk q ≡ in_dirs cache_dir env is w.disk q
    in_dirs-after [] q = refl
    in_dirs-after (j ∷ is) q =
        ground (arith, same_dirs (dir_of cache_dir env j), in_dirs-after is q)

    loses_in-after :
        (j : KernelIdentifier) (f : FileRow KernelKey)
        → (loses cache_dir env (i ∷ []) w.disk f
            || (f.owner.hash == j.hash_key && loses_in cache_dir env j v.disk f.rel_path))
          ≡ (loses cache_dir env (i ∷ []) w.disk f
              || (f.owner.hash == j.hash_key && loses_in cache_dir env j w.disk f.rel_path))
    loses_in-after j f = elim (Option-cases f.rel_path) [
      | inl e ↦ ground arith
      | inr (n, e) ↦ ground (
        arith,
        m.disk (dir_of cache_dir env j // n),
        same_dirs (dir_of cache_dir env j),
        has_suffix-grandchild ir_exts cache_dir i.hash_key j.hash_key n,
        ==_iff i.hash_key j.hash_key,
        ==_iff f.owner.hash j.hash_key,
        ==_iff f.owner.hash i.hash_key,
      )
    ]

    loses-after :
        (is : List KernelIdentifier) (f : FileRow KernelKey)
        → (loses cache_dir env (i ∷ []) w.disk f || loses cache_dir env is v.disk f)
          ≡ loses cache_dir env (i ∷ is) w.disk f
    loses-after [] f = ground arith
    loses-after (j ∷ is) f = ground (arith, loses_in-after j f, loses-after is f)

    pub IrMarked-cons :
        (is : List KernelIdentifier) (x : World KernelKey)
        → IrMarked cache_dir env is v x
        → IrMarked cache_dir env (i ∷ is) w x
    unfolding any_eq
    IrMarked-cons is x n = record {
      tables = n.tables ∙ m.tables;
      deleted_kernels = n.deleted_kernels ∙ m.deleted_kernels;
      files = λ u f h.
          n.files (subst (λ t. UniqueIds t.files) (sym m.tables) u) f
            (subst (λ t. Mem f t.files) (sym m.tables) h)
          ∙ ground (arith, m.files u f h, loses-after is f);
      sizes = λ j old there.
          n.sizes j old (subst (λ t. row_with j t.kernels ≢ none) (sym m.tables) there)
          ∙ rw m.tables (ground (arith, m.sizes j old there));
      disk = λ q. ground (arith, n.disk q, m.disk q, in_dirs-after is q);
    }

  module _ (g : TritonGet env) where
    pub loop_partial :
        (is : List KernelIdentifier) (freed : ℕ) (w : World KernelKey)
        → NoFiles is w.disk
        → (n : ℕ) × (x : World KernelKey) × (prune_loop triton_strategy cache_dir env is true freed
              w
            ≡ (ok n, x))
          × IrMarked cache_dir env is w x
    unfolding prune_loop
    loop_partial [] freed w h = (freed, w, refl, IrMarked-refl w)
    loop_partial (i ∷ is) freed w (hi, h) =
        let v : World KernelKey = after_ir cache_dir env i w in
        let m = after_ir-IrMarked cache_dir env i w hi in
        let e = delete_ir cache_dir env g i w hi in
        let f = (single env.os ir_exts (dir_of cache_dir env i) w.disk).freed in
        let (n, x, p, marked) = loop_partial is (freed + f) v (NoFiles-after i w v m is h) in
        (
          n,
          x,
          rw (e, ap (λ (r : Result ℕ × World KernelKey). r.1) e, prune_loop) p,
          IrMarked-cons i w v m is x marked,
        )
