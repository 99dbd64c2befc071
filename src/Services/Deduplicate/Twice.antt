-- ===== src/Services/Deduplicate/Twice.antt =====
-- After pruning duplicates (services/prune.py) none are found any more.
use mathlib.Core.List.{Mem, Nodup, Nodup-nil, Nodup-cons, exists_of_mem-map, mem-map_of_mem}
use mathlib.Core.Path.{fun_ext, subst}
use mathlib.Core.Logic.{∥∥₁_elim}
use mathlib.Core.Bool.{Bool-set, false≢true}
use mcu.Base.{ℕ, ◌≤◌, String, ◌≡◌, refl, sym, ◌∙◌, ◌≢◌, ap, Bool, true, false, arith, none, ok}
use mcu.Base.{List, [], ◌∷◌, map, All, Bool-cases, inl, inr, is_none}
use mcu.Base.{◌==◌, ==_iff, string_eq, nat_eq}
use mcu.Base.Members.{IsOrderBy, All-of_mem, of_All}
use mcu.Models.{FilePath}
use mcu.Data.Rows.{KernelKey, Row, Tables, kernel_key_eq}
use mcu.Data.Search.{OldestFirst}
use mcu.Data.Upsert.Invariant.{IsWellFormed, UniqueKeys}
use mcu.Data.Duplicates.{KernelDict, kernel_dict, find_duplicates, grouping_key}
use mcu.Data.Duplicates.Groups.{IsReported, FromTable, AllHaveMetadata, find_duplicates_lem}
use mcu.Data.Duplicates.Once.{times, times_in_sets, hashes, find_duplicates_generic-once}
use mcu.Data.Duplicates.Sets.{same}
use mcu.Data.Duplicates.Complete.{Apart, ComparesBy}
use mcu.Data.Duplicates.Together.{generic-together}
use mcu.Data.Duplicates.Kept.{kept-Apart}
use mcu.Cache.Disk.{Disk}
use mcu.Cache.Identifier.Groups.{identifier_of, older_copies, identifiers_of}
use mcu.Services.Session.{any_eq}
use mcu.Services.Strategy.{triton_strategy, path_str}
use mcu.Services.Prune.{Env}
use mcu.Services.Prune.Marks.{TritonGet, keys}
use mcu.Services.Prune.Committed.{row_with-mem, row_with_unique}
use mcu.Services.Deduplicate.{deduplicate_kernels, estimate_groups}
use mcu.Services.Deduplicate.Invariant.{deduplicate_kernels-IsWellFormed}
use mcu.Services.Deduplicate.Triton.{deduplicate_full}

module _ (cache_dir : FilePath) where
  -- The rows are all of the service's directory.
  abbrev pub AllHere : List (Row KernelKey) → Type 0
  AllHere = All (λ r. (r.key.cache_dir == path_str cache_dir) ≡ true)

  not_older :
      (r : Row KernelKey) (ks : List KernelDict)
      → (r.key.cache_dir == path_str cache_dir) ≡ true
      → any_eq r.key (keys cache_dir (map identifier_of ks)) ≡ false
      → times r.key.hash ks ≡ 0
  unfolding any_eq
  not_older r [] h z = refl
  not_older r (k ∷ ks) h z = ground (
    arith,
    ==_iff (path_str cache_dir) r.key.cache_dir,
    ==_iff r.key.cache_dir (path_str cache_dir),
    not_older r ks h,
  )

  hashes-Nodup :
      (rows : List (Row KernelKey))
      → UniqueKeys rows
      → AllHere rows
      → Nodup (hashes (λ k. k.hash) (λ k. none) rows)
  hashes-Nodup [] u h = Nodup-nil
  hashes-Nodup (r ∷ rows) (n, u) (hr, h) = Nodup-cons.1 (
    λ m. ∥∥₁_elim (exists_of_mem-map m) (λ a b. absurd a) (λ x. same_key x.0 x.1 x.2),
    hashes-Nodup rows u h,
  )
    where
      same_key : (x : Row KernelKey) → Mem x rows → x.key.hash ≡ r.key.hash → ⊥
      same_key x i e =
          let here =
            of_All (λ (y : Row KernelKey). (y.key.cache_dir == path_str cache_dir) ≡ true)
              (λ y. Bool-set _ _) rows h i in
          of_All (λ (y : Row KernelKey). r.key ≢ y.key) (λ y f g. fun_ext (λ p. absurd (f p))) rows
            n i
            ((==_iff r.key x.key).0 (
              ground (
                arith,
                here,
                hr,
                ==_iff r.key.hash x.key.hash,
                ==_iff r.key.cache_dir x.key.cache_dir,
                ==_iff r.key.cache_dir (path_str cache_dir),
                ==_iff x.key.cache_dir (path_str cache_dir),
                e,
              )))

  module _ (env : Env KernelKey) (walk : List String → List String) (normal : KernelDict → String)
      (order : List (Row KernelKey) → List (Row KernelKey)) (d : Disk) (t : Tables KernelKey)
      (g : TritonGet env) (o : IsOrderBy OldestFirst order)
      (f : env.find_duplicates ≡ find_duplicates walk order none) (w : IsWellFormed t)
      (here : AllHere t.kernels) (m : AllHaveMetadata (λ k. k.hash) (λ k. none) t.kernels)
      (c : ComparesBy walk normal (map (kernel_dict (λ k. k.hash) (λ k. none)) t.kernels)) where
    abbrev pruned_tables : Tables KernelKey
    pruned_tables = (deduplicate_kernels triton_strategy cache_dir env true d t).2

    abbrev dict : Row KernelKey → KernelDict
    dict = kernel_dict (λ k. k.hash) (λ k. none)

    pruned-IsWellFormed : IsWellFormed pruned_tables
    pruned-IsWellFormed = deduplicate_kernels-IsWellFormed triton_strategy cache_dir env true d t w

    module _ (n : ℕ) (s : estimate_groups (env.find_duplicates t) ≡ ok n) where
      -- A row that is left was there, and is no older copy.
      left :
          (r : Row KernelKey)
          → Mem r pruned_tables.kernels
          → (Mem r t.kernels → times r.key.hash (older_copies (env.find_duplicates t)) ≡ 0 → ⊥)
          → ⊥
      left r i next = row_with_unique pruned_tables.kernels pruned-IsWellFormed.unique_keys i (λ q.
          let (reported, p) = deduplicate_full cache_dir env g n d t s in
          let gone = any_eq r.key (keys cache_dir (identifiers_of (env.find_duplicates t))) in
          elim (Bool-cases gone) [
            | inl y ↦ (let nothing = rw y at (p.rows r.key) in cc (nothing, q))
            | inr k ↦
                let stored = row_with-mem r.key t.kernels r (sym (rw k at (p.rows r.key)) ∙ q) in
                next stored (
                  not_older r (older_copies (env.find_duplicates t))
                    (of_All (λ (y : Row KernelKey). (y.key.cache_dir == path_str cache_dir) ≡ true)
                      (λ y. Bool-set _ _) t.kernels here stored)
                    k)
          ])

      -- A test that every row of the table passed, every row that is left passes.
      left-All :
          (p : Row KernelKey → Bool) (b : Bool)
          → All (λ r. p r ≡ b) t.kernels
          → All (λ r. p r ≡ b) pruned_tables.kernels
      left-All p b h =
          All-of_mem (λ r. p r ≡ b) pruned_tables.kernels
            (λ r i. decide (p r) b (λ k.
              left r i
                (λ stored _. k (of_All (λ r. p r ≡ b) (λ r. Bool-set _ _) t.kernels h stored))))
        where
          decide : (a b : Bool) → ((a ≢ b) → ⊥) → a ≡ b
          decide true true k = refl
          decide false false k = refl
          decide true false k = absurd (k (λ p. false≢true (sym p)))
          decide false true k = absurd (k false≢true)

      two_left :
          (r s : Row KernelKey)
          → Mem r pruned_tables.kernels
          → Mem s pruned_tables.kernels
          → r.key.hash ≢ s.key.hash
          → grouping_key (dict r) ≡ grouping_key (dict s)
          → same walk (dict r) (dict s) ≡ true
          → ⊥
      unfolding kernel_dict find_duplicates
      two_left r s ir is n key q = left r ir (λ r_stored zr. left s is (λ s_stored zs.
          let compared =
            c (dict r) (dict s) (mem-map_of_mem dict r_stored) (mem-map_of_mem dict s_stored) in
          let equal_form = (==_iff (normal (dict r)) (normal (dict s))).0 (sym compared ∙ q) in
          generic-together (λ k. k.hash) (λ k. none) walk normal order t.kernels r s o m c r_stored
            s_stored n key equal_form
            (subst (λ find. Apart (dict r) (dict s) (find t)) f
              (kept-Apart (dict r) (dict s) (env.find_duplicates t) n zr zs))))

      no_set :
          (g : List KernelDict)
          → IsReported walk (FromTable (λ k. k.hash) (λ k. none) pruned_tables.kernels) g
          → ((h : String) → times h g ≤ 1)
          → ⊥
      unfolding kernel_dict
      no_set [] r u = omega (arith, r.duplicates.many)
      no_set (x ∷ []) r u = omega (arith, r.duplicates.many)
      no_set (x ∷ y ∷ g) r u =
          let (fx, (fy, _)) = r.each in
          let (ax, (ay, _)) = r.alike in
          let (same_xy, _) = r.duplicates.all_same in
          let differ : x.hash_value ≢ y.hash_value =
            λ p. ground (arith, u x.hash_value, ==_iff x.hash_value y.hash_value, p) in
          ∥∥₁_elim fx.0 (λ a b. absurd a)
            (λ a.
              ∥∥₁_elim fy.0 (λ a b. absurd a)
                (λ b.
                  let (row_x, ix, ex) = a in
                  let (row_y, iy, ey) = b in
                  two_left row_x row_y ix iy
                    (λ p. differ (ap (λ k. k.hash_value) ex ∙ p ∙ sym (ap (λ k. k.hash_value) ey)))
                    (ap grouping_key (sym ex) ∙ ax ∙ sym ay ∙ ap grouping_key ey)
                    (ap (λ k. same walk k (dict row_y)) (sym ex)
                      ∙ ap (same walk x) (sym ey)
                      ∙ same_xy)))

      -- After a confirmed pruning of duplicates in Triton mode no duplicates are found. All rows must
      -- be of the service's directory and have metadata objects that compare like normal forms do,
      -- the tables be well formed, the duplicates found have sizes, and ORDER BY sort.
      pub deduplicate_twice : find_duplicates walk order none pruned_tables ≡ []
      unfolding find_duplicates
      deduplicate_twice =
          go (find_duplicates walk order none pruned_tables)
            (find_duplicates_lem walk order pruned_tables o have)
            (find_duplicates_generic-once (λ k. k.hash) (λ k. none) walk order pruned_tables.kernels
              o have
              (hashes-Nodup pruned_tables.kernels pruned-IsWellFormed.unique_keys
                (left-All (λ r. r.key.cache_dir == path_str cache_dir) true here)))
        where
          have : AllHaveMetadata (λ k. k.hash) (λ k. none) pruned_tables.kernels
          have = left-All (λ r. is_none r.columns.kernel_metadata_json) false m

          go :
              (sets : List (List KernelDict))
              → All
                  (IsReported walk (FromTable (λ k. k.hash) (λ k. none) pruned_tables.kernels))
                  sets
              → ((h : String) → times_in_sets h sets ≤ 1)
              → sets ≡ []
          go [] r u = refl
          go (s ∷ sets) (r, _) u = absurd (no_set s r (λ h. omega (arith, u h)))
