-- ===== src/Data/Duplicates/Once.antt =====
-- `find_duplicates` (data/database.py) reports no kernel twice: how often a hash occurs in what its
-- loops make of a list.
use mathlib.Core.List.{Mem, mem-cons_self, mem-cons_of_mem, Nodup, Nodup-cons}
use mcu.Base.{ℕ, zero, suc, ◌+◌, ◌≤◌, String, ◌≡◌, refl, Bool, not, arith}
use mcu.Base.{List, [], ◌∷◌, ◌++◌, map, keep, length, sum_of, sum_of-append}
use mcu.Base.{All, All-map, ok, ltb, if◌then◌else◌, Bool-cases, inl, inr, ◌==◌, ==_iff, string_eq}
use mcu.Data.Duplicates.{KernelDict, Groups, grouping_key, append_to, group_onto, keep_if_many}
use mcu.Data.Rows.{Row}
use mcu.Data.Search.{OldestFirst}
use mcu.Base.Members.{IsOrderBy, mem-order, All-of_mem}
use mcu.Data.Duplicates.{kernel_dict, find_duplicates_generic}
use mcu.Data.Duplicates.Groups.{AllHaveMetadata, AllHaveMetadata-at, Ordered-kernel_dict}
use mcu.Data.Duplicates.Grouping.{IsGroup, group_kernels_by_name_and_size-IsGroup}
use mcu.Data.Duplicates.{group_kernels_by_name_and_size, find_duplicate_groups_in_groups}
use mcu.Data.Duplicates.Sets.{HasMetadata, same, classes, find_duplicates-eq-classes}
use mathlib.Core.List.Perm
use mcu.Base.{Option, none, All-of_map, option_eq, nat_eq, pair_eq}

abbrev pub one : String → KernelDict → ℕ
one h k = if k.hash_value == h then 1 else 0

-- How often a hash occurs among the kernels.
abbrev pub times : String → List KernelDict → ℕ
times h = sum_of (one h)

abbrev pub times_in_sets : String → List (List KernelDict) → ℕ
times_in_sets h = sum_of (times h)

abbrev times_in_groups : String → Groups → ℕ
times_in_groups h = sum_of (λ g. times h g.1)

times-keep-not :
    (h : String) (p : KernelDict → Bool) (ks : List KernelDict)
    → times h (keep p ks) + times h (keep (λ k. not (p k)) ks) ≡ times h ks
times-keep-not h p [] = refl
times-keep-not h p (k ∷ ks) = ground (arith, times-keep-not h p ks)

times-append_to :
    (h : String) (k : KernelDict) (groups : Groups)
    → times_in_groups h (append_to (grouping_key k) k groups) ≡ times_in_groups h groups + one h k
unfolding append_to
times-append_to h k [] = omega arith
times-append_to h k ((j, g) ∷ groups) = elim (Bool-cases (j == grouping_key k)) [
  | inl y ↦ rw y (omega (arith, sum_of-append (one h) g (k ∷ [])))
  | inr n ↦ rw n (omega (arith, times-append_to h k groups))
]

times-group_onto :
    (h : String) (ks : List KernelDict) (groups : Groups)
    → times_in_groups h (group_onto groups ks) ≡ times_in_groups h groups + times h ks
unfolding group_onto
times-group_onto h [] groups = omega arith
times-group_onto h (k ∷ ks) groups =
    omega (
      arith,
      times-group_onto h ks (append_to (grouping_key k) k groups),
      times-append_to h k groups,
    )

module _ (walk : List String → List String) where
  times-keep_if_many :
      (h : String) (g : List KernelDict) (sets : List (List KernelDict))
      → times_in_sets h (keep_if_many walk g sets) ≤ times h g + times_in_sets h sets
  times-keep_if_many h g sets = elim (Bool-cases (ltb 1 (length g))) [
    | inl y ↦ rw y (omega arith)
    | inr n ↦ rw n (omega arith)
  ]

  times-classes :
      (h : String) (f : ℕ) (ks : List KernelDict) → times_in_sets h (classes walk f ks) ≤ times h ks
  unfolding classes
  times-classes h zero ks = omega arith
  times-classes h (suc f) [] = omega arith
  times-classes h (suc f) (k ∷ ks) =
      let others = keep (λ j. not (same walk k j)) ks in
      omega (
        arith,
        times-keep_if_many h (k ∷ keep (same walk k) ks) (classes walk f others),
        times-classes h f others,
        times-keep-not h (same walk k) ks,
      )

  -- No hash occurs in the sets more often than in the groups.
  times-groups :
      (h : String) (groups : Groups)
      → All (λ g. All HasMetadata g.1) groups
      → (sets : List (List KernelDict)) × (find_duplicate_groups_in_groups walk groups ≡ ok sets)
        × (times_in_sets h sets ≤ times_in_groups h groups)
  unfolding find_duplicate_groups_in_groups
  times-groups h [] m = ([], refl, omega arith)
  times-groups h ((j, g) ∷ groups) (mg, m) =
      let (sets, e, l) = times-groups h groups m in
      elim (Bool-cases (ltb (length g) 2)) [
        | inl y ↦ (sets, rw (y, e), omega (arith, l))
        | inr n ↦ (
          classes walk (length g) g ++ sets,
          rw (n, find_duplicates-eq-classes walk g mg, e),
          omega (
            arith,
            l,
            sum_of-append (times h) (classes walk (length g) g) sets,
            times-classes h (length g) g,
          ),
        )
      ]

module _ {K : Type 0} (hash_field : K → String) (additional : K → Option String) where
  abbrev pub hashes : List (Row K) → List String
  hashes rows = map (λ r. hash_field r.key) rows

  times-absent :
      (h : String) (rows : List (Row K))
      → (Mem h (hashes rows) → ⊥)
      → times h (map (kernel_dict hash_field additional) rows) ≡ 0
  unfolding kernel_dict
  times-absent h [] n = refl
  times-absent h (r ∷ rows) n = elim (Bool-cases (hash_field r.key == h)) [
    | inl y ↦ absurd (n (rw ((==_iff (hash_field r.key) h).0 y) mem-cons_self))
    | inr k ↦
        rw k (omega (arith, times-absent h rows (λ m. n (mem-cons_of_mem (hash_field r.key) m))))
  ]

  times_unique :
      (h : String) (rows : List (Row K))
      → Nodup (hashes rows)
      → times h (map (kernel_dict hash_field additional) rows) ≤ 1
  unfolding kernel_dict
  times_unique h [] u = omega arith
  times_unique h (r ∷ rows) u =
      let (absent, u') = Nodup-cons.0 u in
      elim (Bool-cases (hash_field r.key == h)) [
        | inl y ↦
            let p : hash_field r.key ≡ h = (==_iff (hash_field r.key) h).0 y in
            let z = times-absent h rows (λ m. absent (rw p m)) in rw y (omega (arith, z))
        | inr k ↦ rw k (omega (arith, times_unique h rows u'))
      ]

  groups_have_metadata :
      (groups : Groups)
      → All (IsGroup HasMetadata []) groups
      → All (λ g. All HasMetadata g.1) groups
  groups_have_metadata groups =
      All-map (IsGroup HasMetadata []) (λ g. All HasMetadata g.1) (λ g h. h.each) groups

  -- Where no two rows have one hash, none is reported twice.
  pub find_duplicates_generic-once :
      (walk : List String → List String) (order : List (Row K) → List (Row K)) (rows : List (Row K))
      → IsOrderBy OldestFirst order
      → AllHaveMetadata hash_field additional rows
      → Nodup (hashes rows)
      → (h : String)
      → times_in_sets h (find_duplicates_generic walk hash_field additional order none rows) ≤ 1
  unfolding find_duplicates_generic group_kernels_by_name_and_size
  find_duplicates_generic-once walk order rows o m u h =
      let dicts = map (kernel_dict hash_field additional) (order rows) in
      let grouped =
        group_kernels_by_name_and_size-IsGroup HasMetadata dicts
          (All-of_map HasMetadata (kernel_dict hash_field additional) (order rows) (
            All-of_mem _ (order rows)
              (λ r i. AllHaveMetadata-at hash_field additional rows m ((mem-order o rows).0 i))))
          (Ordered-kernel_dict hash_field additional (order rows) (o.ordered rows)) in
      let (sets, e, l) =
        times-groups walk h (group_kernels_by_name_and_size dicts)
          (groups_have_metadata _ grouped) in
      let unique = Perm.nodup (Perm.symm (Perm.map (λ r. hash_field r.key) (o.perm rows))) u in
      rw e (omega (arith, l, times-group_onto h dicts [], times_unique h (order rows) unique))
