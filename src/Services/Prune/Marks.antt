-- ===== src/Services/Prune/Marks.antt =====
-- A full deletion of kernels in Triton mode (services/prune.py): what it marks in the session and
-- removes from the disk, and what the commit makes of it.
use mcu.Base.{String, ◌≡◌, refl, sym, ◌≢◌, ◌∙◌, ap, false, ◌||◌}
use mcu.Base.{none, arith, List, [], ◌∷◌, ◌++◌, map, ok, inl, inr}
use mcu.Base.{◌==◌, ==_iff, string_eq, Bool-cases, Option-cases, if◌then◌else◌}
use mcu.Models.{FilePath}
use mcu.Data.Rows.{Row, Tables, KernelKey, kernel_key_eq}
use mcu.Data.Upsert.{files_of}
use mcu.Data.Upsert.Laws.{key_of}
use mcu.Cache.Disk.{Disk, node_at, ◌//◌}
use mcu.Cache.Deletion.{delete_kernel_directories}
use mcu.Cache.Deletion.Directories.{IsRmtreeFailure, inside, delete_directories_outside}
use mcu.Cache.Identifier.{KernelIdentifier, get_kernel_directories, triton}
use mcu.Services.Session.{IsGet, commit, any_eq, row_with}
use mcu.Services.Strategy.{triton_strategy, path_str}
use mcu.Services.Prune.{Env, World, begin}
use mcu.Services.Prune.{delete_kernel_unified, mark_deleted}
use mcu.Services.Prune.Committed.{commit-deleted, any_eq-append, row_with-key}

-- The columns of the primary key of `KernelOrm`.
abbrev pub kernel_pk : KernelKey → List String
kernel_pk k = k.hash ∷ k.cache_dir ∷ []

-- `session.get` as SQLAlchemy documents it for this table.
abbrev pub TritonGet : Env KernelKey → Type 0
TritonGet env = IsGet kernel_pk 2 env.get

abbrev pub triton_identifier : Row KernelKey → KernelIdentifier
triton_identifier r = record { mode = triton; hash_key = r.key.hash; vllm_hash = none }

-- The primary key that an identifier stands for.
abbrev pub key : FilePath → KernelIdentifier → KernelKey
key cache_dir i = key_of i.hash_key (path_str cache_dir)

abbrev pub keys : FilePath → List KernelIdentifier → List KernelKey
keys cache_dir = map (key cache_dir)

module _ (cache_dir : FilePath) (env : Env KernelKey) where
  -- What one full deletion leaves.
  pub after : KernelIdentifier → World KernelKey → World KernelKey
  after i w =
      mark_deleted triton_strategy cache_dir (row_with (key cache_dir i) w.tables.kernels)
        (record w {
          disk = (delete_kernel_directories env.os ((cache_dir // i.hash_key) ∷ []) w.disk).1;
        })

  pub delete_full :
      TritonGet env
      → (i : KernelIdentifier) (w : World KernelKey)
      → delete_kernel_unified triton_strategy cache_dir env i false w ≡ (
        ok (delete_kernel_directories env.os ((cache_dir // i.hash_key) ∷ []) w.disk).0,
        after i w,
      )
  unfolding delete_kernel_unified triton_strategy get_kernel_directories after
  delete_full g i w = rw (g.finds (key cache_dir i) w.tables) refl

  -- Its world, for goals where the pair is taken apart.
  pub delete_full-world :
      TritonGet env
      → (i : KernelIdentifier) (w : World KernelKey)
      → (delete_kernel_unified triton_strategy cache_dir env i false w).1 ≡ after i w
  delete_full-world g i w = ap (λ p. p.1) (delete_full g i w)

  inside-append :
      (ks js : List KernelKey) (q : FilePath)
      → inside (map (λ k. cache_dir // k.hash) (ks ++ js)) q ≡ false
      → (inside (map (λ k. cache_dir // k.hash) ks) q ≡ false)
        × (inside (map (λ k. cache_dir // k.hash) js) q ≡ false)
  inside-append [] js q h = (refl, h)
  inside-append (k ∷ ks) js q h = ground (arith, inside-append ks js q)

  -- The marks of one deletion: its own key, if a row has it.
  pub record Marked (ks : List KernelKey) (w w' : World KernelKey) : Type 0 where
    pub tables : w'.tables ≡ w.tables
    pub deleted_files : w'.pending.deleted_files ≡ w.pending.deleted_files
    pub sizes : w'.pending.sizes ≡ w.pending.sizes
    pub marks :
        (j : KernelKey)
        → row_with j w.tables.kernels ≢ none
        → any_eq j w'.pending.deleted_kernels ≡ (any_eq j w.pending.deleted_kernels || any_eq j ks)
    pub outside_dirs :
        IsRmtreeFailure env.os
        → (q : FilePath) → inside (map (λ k. cache_dir // k.hash) ks) q ≡ false
        → node_at q w'.disk ≡ node_at q w.disk

  pub after-Marked :
      (i : KernelIdentifier) (w : World KernelKey) → Marked (key cache_dir i ∷ []) w (after i w)
  unfolding after mark_deleted any_eq
  after-Marked i w = elim (Option-cases (row_with (key cache_dir i) w.tables.kernels)) [
    | inl e ↦
        rw (e, mark_deleted)
          (record {
            tables = refl;
            deleted_files = refl;
            sizes = refl;
            marks = λ j there. elim (Bool-cases (key cache_dir i == j)) [
              | inl y ↦ absurd (
                  there (
                    ap (λ k. row_with k w.tables.kernels) (sym ((==_iff (key cache_dir i) j).0 y))
                    ∙ e))
              | inr n ↦ ground arith
            ];
            outside_dirs = λ f q o. delete_directories_outside env.os f _ q w.disk o;
          })
    | inr (r, e) ↦
        rw (e, mark_deleted)
          (record {
            tables = refl;
            deleted_files = refl;
            sizes = refl;
            marks = λ j there.
                any_eq-append j w.pending.deleted_kernels (r.key ∷ [])
                ∙ ap (λ k. any_eq j w.pending.deleted_kernels || any_eq j (k ∷ []))
                    (row_with-key (key cache_dir i) w.tables.kernels r e);
            outside_dirs = λ f q o. delete_directories_outside env.os f _ q w.disk o;
          })
  ]

  pub Marked-trans :
      (ks js : List KernelKey) (u v w : World KernelKey)
      → Marked ks u v
      → Marked js v w
      → Marked (ks ++ js) u w
  Marked-trans ks js u v w a b = record {
    tables = b.tables ∙ a.tables;
    deleted_files = b.deleted_files ∙ a.deleted_files;
    sizes = b.sizes ∙ a.sizes;
    marks = λ j there.
        let h = a.marks j there in
        let h' = b.marks j (λ p. there (ap (λ t. row_with j t.kernels) (sym a.tables) ∙ p)) in
        h' ∙ ground (arith, h, any_eq-append j ks js);
    outside_dirs = λ f q o.
        let (p, r) = inside-append ks js q o in b.outside_dirs f q r ∙ a.outside_dirs f q p;
  }

  pub Marked-refl : (w : World KernelKey) → Marked [] w w
  unfolding any_eq
  Marked-refl w = record {
    tables = refl;
    deleted_files = refl;
    sizes = refl;
    marks = λ j there. ground arith;
    outside_dirs = λ f q o. refl;
  }

  -- What a full prune of the keys `ks` makes of the tables `t` and the disk `d`.
  pub record IsPruned (ks : List KernelKey) (t t' : Tables KernelKey) (d d' : Disk) : Type 0 where
    pub rows :
        (j : KernelKey)
        → row_with j t'.kernels ≡ (if any_eq j ks then none else row_with j t.kernels)
    pub files :
        (j : KernelKey)
        → row_with j t.kernels ≢ none
        → files_of j t'.files ≡ (if any_eq j ks then [] else files_of j t.files)
    pub outside_dirs :
        IsRmtreeFailure env.os
        → (q : FilePath) → inside (map (λ k. cache_dir // k.hash) ks) q ≡ false
        → node_at q d' ≡ node_at q d

  pub commit-IsPruned :
      (ks : List KernelKey) (d : Disk) (t : Tables KernelKey) (w : World KernelKey)
      → Marked ks (begin d t) w
      → IsPruned ks t (commit w.pending w.tables) d w.disk
  unfolding any_eq
  commit-IsPruned ks d t w m = record {
    rows = λ j. elim (Option-cases (row_with j t.kernels)) [
      | inl e ↦ rw same_commit (ground (arith, (commit-deleted w.pending.deleted_kernels t j).0))
      | inr (r, e) ↦ rw same_commit (
          ground
            (arith, (commit-deleted w.pending.deleted_kernels t j).0, m.marks j (λ p. cc (p, e))))
    ];
    files = λ j there.
        rw same_commit
          (ground (arith, (commit-deleted w.pending.deleted_kernels t j).1, m.marks j there));
    outside_dirs = m.outside_dirs;
  }
    where
      same_pending :
          w.pending
          ≡ record { deleted_kernels = w.pending.deleted_kernels; deleted_files = []; sizes = [] }
      same_pending = cc (m.deleted_files, m.sizes)

      same_commit :
          commit w.pending w.tables
          ≡ commit
              (record {
                deleted_kernels = w.pending.deleted_kernels;
                deleted_files = [];
                sizes = [];
              })
              t
      same_commit = cc (same_pending, m.tables)

  -- No key, no change.
  pub nothing-IsPruned : (d : Disk) (t : Tables KernelKey) → IsPruned [] t t d d
  unfolding any_eq
  nothing-IsPruned d t = record {
    rows = λ j. refl;
    files = λ j there. refl;
    outside_dirs = λ f q o. refl;
  }
