-- ===== src/Services/Prune/Partial.antt =====
-- A partial prune in Triton mode (services/prune.py): IR files go, kernels stay.
use mathlib.Core.List.{Mem, map-id, mem-cons_self, mem-cons_of_mem}
use mathlib.Core.Path.{subst}
use mcu.Base.{ℕ, ◌≡◌, refl, sym, ◌∙◌, ap, true, false, not, some, Bool}
use mcu.Base.{List, [], ◌∷◌, map, keep, length, length-map, ok, if◌then◌else◌, arith, none}
use mcu.Models.{FilePath, SearchCriteria}
use mcu.Data.Rows.{Row, Tables, KernelKey, kernel_key_eq}
use mcu.Data.Upsert.Invariant.{UniqueIds}
use mcu.Cache.Disk.{Disk, node_at}
use mcu.Cache.Identifier.{KernelIdentifier}
use mcu.Services.Session.{commit, any_eq, resize_row, resized}
use mcu.Services.Strategy.{triton_strategy}
use mcu.Services.Prune.{Env, World, Outcome, begin, prune, prune_found, finish}
use mcu.Services.Prune.Marks.{TritonGet, keys, triton_identifier}
use mcu.Services.Prune.Committed.{row_with-of_mem}
use mcu.Services.Prune.IrMarks.{gone, loses, stored_size, IrMarked}
use mcu.Services.Prune.IrLoop.{NoFiles, loop_partial}
use mcu.Services.Prune.Triton.{found, identifiers_of_triton_rows}

-- Lists that agree at their members.
map-eq {ℓ κ} :
    {A : Type ℓ} {B : Type κ} (f g : A → B) (xs : List A)
    → ((a : A) → Mem a xs → f a ≡ g a)
    → map f xs ≡ map g xs
map-eq f g [] h = refl
map-eq f g (x ∷ xs) h = cc (h x mem-cons_self, map-eq f g xs (λ a m. h a (mem-cons_of_mem x m)))

keep-eq {ℓ} :
    {A : Type ℓ} (p q : A → Bool) (xs : List A)
    → ((a : A) → Mem a xs → p a ≡ q a)
    → keep p xs ≡ keep q xs
keep-eq p q [] h = refl
keep-eq p q (x ∷ xs) h =
    ground (arith, h x mem-cons_self, keep-eq p q xs (λ a m. h a (mem-cons_of_mem x m)))

keep-all {ℓ} : {A : Type ℓ} (xs : List A) → keep (λ x. true) xs ≡ xs
keep-all [] = refl
keep-all (x ∷ xs) = ap (λ l. x ∷ l) (keep-all xs)

module _ (cache_dir : FilePath) (env : Env KernelKey) where
  -- The row after the prune: `total_size` is what was stored before it, for all files.
  abbrev pub resummed : Tables KernelKey → List KernelIdentifier → Row KernelKey → Row KernelKey
  resummed t is r = record r {
    columns = record (r.columns) {
      total_size =
          if any_eq r.key (keys cache_dir is)
          then some (stored_size cache_dir env t r.key)
          else r.columns.total_size;
    };
  }

  -- What a partial prune makes of the tables `t` and the disk `d`.
  pub record IsStripped (is : List KernelIdentifier) (t t' : Tables KernelKey) (d d' : Disk)
      : Type 0 where
    pub kernels : t'.kernels ≡ map (resummed t is) t.kernels
    pub files : UniqueIds t.files → t'.files ≡ keep (λ f. not (loses cache_dir env is d f)) t.files
    pub disk :
        (q : FilePath) → node_at q d' ≡ (if gone cache_dir env is d q then none else node_at q d)

  commit-IsStripped :
      (is : List KernelIdentifier) (d : Disk) (t : Tables KernelKey) (w : World KernelKey)
      → IrMarked cache_dir env is (begin d t) w
      → IsStripped is t (commit w.pending w.tables) d w.disk
  unfolding commit any_eq resized
  commit-IsStripped is d t w m = record {
    kernels =
        rw (m.tables, m.deleted_kernels)
          (keep-all (map (resize_row w.pending.sizes) t.kernels)
            ∙ map-eq (resize_row w.pending.sizes) (resummed t is) t.kernels (λ r h.
              ap (λ s. record r { columns = record (r.columns) { total_size = s } })
                (m.sizes r.key r.columns.total_size (row_with-of_mem t.kernels h))));
    files = λ u.
        rw (m.tables, m.deleted_kernels)
          (keep-eq _ _ t.files (λ f h. ground (arith, m.files u f h)));
    disk = m.disk;
  }

  -- The outcome reports as many kernels as were found, which have lost their IR files.
  abbrev pub StrippedAll :
      TritonGet env → SearchCriteria → Disk → Tables KernelKey → Outcome KernelKey → Type 0
  StrippedAll g criteria d t o =
      let rows = found cache_dir env g criteria t in
      (n : ℕ) × (o.0
        ≡ ok
            (some (record { pruned = length rows; reclaimed = n; aborted = false; empty = false })))
      × IsStripped (map triton_identifier rows) t o.2 d o.1

  module _ (g : TritonGet env) where
    found-IsStripped :
        (is : List KernelIdentifier) (d : Disk) (t : Tables KernelKey)
        → NoFiles cache_dir env is d
        → let o = prune_found triton_strategy cache_dir env true true is d t in
          (n : ℕ) × (o.0
            ≡ ok (
                some
                  (record { pruned = length is; reclaimed = n; aborted = false; empty = false })))
          × IsStripped is t o.2 d o.1
    unfolding prune any_eq
    found-IsStripped [] d t h = (
      0,
      refl,
      record {
        kernels = sym (map-id t.kernels);
        files = λ u. sym (keep-all t.files);
        disk = λ q. refl;
      },
    )
    found-IsStripped (i ∷ is) d t h =
        let (n, w, e, m) = loop_partial cache_dir env g (i ∷ is) 0 (begin d t) h in
        (
          n,
          ap (λ x. (finish triton_strategy cache_dir (length (i ∷ is)) x).0) e,
          subst
              (λ x.
                IsStripped (i ∷ is) t (finish triton_strategy cache_dir (length (i ∷ is)) x).2 d
                  (finish triton_strategy cache_dir (length (i ∷ is)) x).1)
              (sym e) (commit-IsStripped (i ∷ is) d t w m),
        )

    pub partial-eq :
        (criteria : SearchCriteria) (d : Disk) (t : Tables KernelKey)
        → prune triton_strategy cache_dir env criteria true true d t
          ≡ prune_found triton_strategy cache_dir env true true
              (map triton_identifier (found cache_dir env g criteria t))
              d
              t
    unfolding prune
    partial-eq criteria d t =
        rw (identifiers_of_triton_rows cache_dir env g (found cache_dir env g criteria t), prune)

    -- A partial prune that is confirmed in Triton mode raises nothing if no kernel's directory is a
    -- file. It reports as many kernels as the search found and keeps every kernel row: those found
    -- change in `total_size` alone, which becomes the size of all files stored before, the deleted
    -- ones included. Of the disk exactly the IR files that stand in the directories of these kernels
    -- and that the system lets go are gone, and, where file ids are unique, of the file rows exactly
    -- those of a kernel with the hash of one of them, in whatever directory, and a deleted name.
    pub prune_partial :
        (criteria : SearchCriteria) (d : Disk) (t : Tables KernelKey)
        → NoFiles cache_dir env (map triton_identifier (found cache_dir env g criteria t)) d
        → StrippedAll g criteria d t (prune triton_strategy cache_dir env criteria true true d t)
    prune_partial criteria d t h =
        subst (StrippedAll g criteria d t) (sym (partial-eq criteria d t)) (
          rw (← length-map (found cache_dir env g criteria t) triton_identifier)
            (found-IsStripped (map triton_identifier (found cache_dir env g criteria t)) d t h))
