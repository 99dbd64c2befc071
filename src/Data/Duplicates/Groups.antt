-- ===== src/Data/Duplicates/Groups.antt =====
-- What `find_duplicates` (data/database.py) returns: groups of rows with one name and one size,
-- duplicates of one another's first, oldest first.
use mathlib.Core.List.{Mem}
use mcu.Base.{ℕ, String, ◌≡◌, refl, false}
use mcu.Base.{Option, none, some, List, [], ◌∷◌, ◌++◌, length, All, All-append, map}
use mcu.Base.{Ordered, ok, ltb, Bool-cases, inl, inr}
use mcu.Base.{string_eq, nat_eq, option_eq, pair_eq, is_none, All-map, All-of_map}
use mcu.Base.Members.{IsOrderBy, mem-order, All-of_mem, of_All}
use mathlib.Core.Bool.{Bool-set}
use mcu.Data.Rows.{KernelKey, VllmKey, Row, Tables}
use mcu.Data.Search.{OldestFirst}
use mcu.Data.Duplicates.{KernelDict, Groups, grouping_key}
use mcu.Data.Duplicates.{find_duplicate_groups_in_groups}
use mcu.Data.Duplicates.{find_duplicates_generic, kernel_dict}
use mcu.Data.Duplicates.{find_duplicates, find_vllm_duplicates}
use mcu.Data.Duplicates.Sets.{HasMetadata, classes, find_duplicates-eq-classes, IsDuplicateSet}
use mcu.Data.Duplicates.Sets.{classes-IsDuplicateSet, classes-Ordered, classes-All}
use mcu.Data.Duplicates.Grouping.{Older, IsGroup, group_kernels_by_name_and_size-IsGroup}

module _ (walk : List String → List String) (P : KernelDict → Type 0) where
  -- A group that is reported: at least two kernels, duplicates of the first, with one name and one
  -- size, the oldest first, each of them with `P`.
  pub record IsReported (g : List KernelDict) : Type 0 where
    pub duplicates : IsDuplicateSet walk g
    pub oldest_first : Ordered Older g
    pub key : Option String × Option ℕ
    pub alike : All (λ k. grouping_key k ≡ key) g
    pub each : All P g

  classes-IsReported :
      (f : ℕ) (j : Option String × Option ℕ) (g : List KernelDict)
      → IsGroup P [] (j, g)
      → All IsReported (classes walk f g)
  classes-IsReported f j g h =
      gather (classes walk f g) (classes-IsDuplicateSet walk f g)
        (classes-Ordered walk Older f g h.ordered)
        (classes-All walk (λ k. grouping_key k ≡ j) f g h.keyed) (classes-All walk P f g h.each)
    where
      gather :
          (sets : List (List KernelDict))
          → All (IsDuplicateSet walk) sets
          → All (Ordered Older) sets
          → All (All (λ k. grouping_key k ≡ j)) sets
          → All (All P) sets
          → All IsReported sets
      gather [] d o a p = tt
      gather (s ∷ sets) (d, ds) (o, os) (a, as') (p, ps) = (
        record { duplicates = d; oldest_first = o; key = j; alike = a; each = p },
        gather sets ds os as' ps,
      )

  groups-IsReported :
      (groups : Groups)
      → All (IsGroup P []) groups
      → ((k : KernelDict) → P k → HasMetadata k)
      → (sets : List (List KernelDict)) × (find_duplicate_groups_in_groups walk groups ≡ ok sets)
        × All IsReported sets
  unfolding find_duplicate_groups_in_groups
  groups-IsReported [] h m = ([], refl, tt)
  groups-IsReported ((j, g) ∷ groups) (hg, h) m =
      let (sets, e, r) = groups-IsReported groups h m in
      elim (Bool-cases (ltb (length g) 2)) [
        | inl y ↦ (sets, rw (y, e), r)
        | inr n ↦ (
          classes walk (length g) g ++ sets,
          rw (n, find_duplicates-eq-classes walk g (All-map P HasMetadata m g hg.each), e),
          All-append IsReported (classes walk (length g) g) sets
              (classes-IsReported (length g) j g hg) r,
        )
      ]

module _ {K : Type 0} (hash_field : K → String) (additional : K → Option String) where
  -- the kernel stands for a row of the table
  abbrev pub StandsFor : List (Row K) → KernelDict → Type 0
  StandsFor rows d = ∥ ((r : Row K) × Mem r rows × (d ≡ kernel_dict hash_field additional r)) ∥₁

  abbrev pub FromTable : List (Row K) → KernelDict → Type 0
  FromTable rows d = StandsFor rows d × HasMetadata d

  abbrev pub AllHaveMetadata : List (Row K) → Type 0
  AllHaveMetadata = All (λ r. is_none r.columns.kernel_metadata_json ≡ false)

  pub AllHaveMetadata-at :
      (rows : List (Row K)) {r : Row K}
      → AllHaveMetadata rows
      → Mem r rows
      → HasMetadata (kernel_dict hash_field additional r)
  unfolding kernel_dict
  AllHaveMetadata-at rows h m =
      of_All (λ r. is_none r.columns.kernel_metadata_json ≡ false) (λ r. Bool-set _ _) rows h m

  pub Ordered-kernel_dict :
      (rows : List (Row K))
      → Ordered OldestFirst rows
      → Ordered Older (map (kernel_dict hash_field additional) rows)
  unfolding kernel_dict
  Ordered-kernel_dict [] h = tt
  Ordered-kernel_dict (r ∷ rows) (hr, h) = (
    All-of_map (Older (kernel_dict hash_field additional r)) _ rows hr,
    Ordered-kernel_dict rows h,
  )

  find_duplicates_generic-IsReported :
      (walk : List String → List String) (order : List (Row K) → List (Row K)) (rows : List (Row K))
      → IsOrderBy OldestFirst order
      → AllHaveMetadata rows
      → All
          (IsReported walk (FromTable rows))
          (find_duplicates_generic walk hash_field additional order none rows)
  unfolding find_duplicates_generic
  find_duplicates_generic-IsReported walk order rows o h =
      let (sets, e, r) =
        groups-IsReported walk (FromTable rows) _
          (group_kernels_by_name_and_size-IsGroup (FromTable rows)
            (map (kernel_dict hash_field additional) (order rows))
            (All-of_map (FromTable rows) (kernel_dict hash_field additional) (order rows) (
              All-of_mem _ (order rows) λ a m.
                let m' = (mem-order o rows).0 m in
                (∣ (a, m', refl) ∣₁, AllHaveMetadata-at rows h m')))
            (Ordered-kernel_dict (order rows) (o.ordered rows)))
          (λ k x. x.1) in
      rw e r

-- Every group that `Database.find_duplicates` returns consists of at least two rows of the table
-- with one name and one total size, all of them duplicates of the first, and is sorted from the
-- oldest to the newest; provided every row has a metadata object and ORDER BY sorts.
pub find_duplicates_lem :
    (walk : List String → List String) (order : List (Row KernelKey) → List (Row KernelKey))
    (t : Tables KernelKey)
    → IsOrderBy OldestFirst order
    → AllHaveMetadata (λ k. k.hash) (λ k. none) t.kernels
    → All
        (IsReported walk (FromTable (λ k. k.hash) (λ k. none) t.kernels))
        (find_duplicates walk order none t)
unfolding find_duplicates
find_duplicates_lem walk order t o h =
    find_duplicates_generic-IsReported (λ k. k.hash) (λ k. none) walk order t.kernels o h

-- The same for `VllmDatabase.find_duplicates`.
pub find_vllm_duplicates_lem :
    (walk : List String → List String) (order : List (Row VllmKey) → List (Row VllmKey))
    (t : Tables VllmKey)
    → IsOrderBy OldestFirst order
    → AllHaveMetadata (λ k. k.triton_cache_key) (λ k. some k.vllm_hash) t.kernels
    → All
        (IsReported walk (FromTable (λ k. k.triton_cache_key) (λ k. some k.vllm_hash) t.kernels))
        (find_vllm_duplicates walk order none t)
unfolding find_vllm_duplicates
find_vllm_duplicates_lem walk order t o h =
    find_duplicates_generic-IsReported (λ k. k.triton_cache_key) (λ k. some k.vllm_hash) walk order
      t.kernels o h
