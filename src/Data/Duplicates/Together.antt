-- ===== src/Data/Duplicates/Together.antt =====
-- Duplicates with one name and one size come in one of the sets of `find_duplicates`
-- (data/database.py).
use mathlib.Core.List.{Mem, Mem-prop, mem-map_of_mem, not-mem-nil}
use mathlib.Core.Bool.{Bool-set}
use mathlib.Core.List.Perm
use mcu.Base.{ℕ, String, ◌≡◌, refl, sym, ◌≢◌, arith, Option, none, ok}
use mcu.Base.{List, [], ◌∷◌, ◌++◌, map, length, All, All-map, All-of_map, All-of_append}
use mcu.Base.{◌==◌, ==_iff, ==_self, string_eq, option_eq, nat_eq, pair_eq}
use mcu.Base.{ltb, ltb→lt, Bool-cases, inl, inr}
use mcu.Base.Members.{IsOrderBy, mem-order, mem-keep, All-of_mem, of_All}
use mcu.Data.Rows.{Row}
use mcu.Data.Search.{OldestFirst}
use mcu.Data.Duplicates.{KernelDict, Groups, grouping_key, kernel_dict}
use mcu.Data.Duplicates.{find_duplicate_groups_in_groups, find_duplicates_generic}
use mcu.Data.Duplicates.{group_kernels_by_name_and_size}
use mcu.Data.Duplicates.Sets.{HasMetadata, classes, find_duplicates-eq-classes}
use mcu.Data.Duplicates.Grouping.{IsGroup, group_kernels_by_name_and_size-IsGroup, group_at}
use mcu.Data.Duplicates.Grouping.{group_at-group_kernels_by_name_and_size}
use mcu.Data.Duplicates.Groups.{AllHaveMetadata, AllHaveMetadata-at, Ordered-kernel_dict}
use mcu.Data.Duplicates.Complete.{Apart, ComparesBy, two_members, classes-together}

-- What is known of a kernel of the list.
abbrev IsListed : List KernelDict → KernelDict → Type 0
IsListed ks k = HasMetadata k × Mem k ks

module _ (walk : List String → List String) (normal : KernelDict → String) (ks : List KernelDict)
    (a b : KernelDict) (n : a.hash_value ≢ b.hash_value) (e : normal a ≡ normal b)
    (c : ComparesBy walk normal ks) where
  -- Not both are in the group.
  abbrev NotBoth : List KernelDict → Type 0
  NotBoth g = Mem a g → Mem b g → ⊥

  listed-ComparesBy : (g : List KernelDict) → All (IsListed ks) g → ComparesBy walk normal g
  listed-ComparesBy g h x y mx my = c x y (listed x mx) (listed y my)
    where
      listed : (x : KernelDict) → Mem x g → Mem x ks
      listed x m =
          of_All (λ k. Mem k ks) (λ k. Mem-prop) g
            (All-map (IsListed ks) (λ k. Mem k ks) (λ k i. i.1) g h) m

  groups-together :
      (groups : Groups)
      → All (IsGroup (IsListed ks) []) groups
      → (sets : List (List KernelDict)) × (find_duplicate_groups_in_groups walk groups ≡ ok sets)
        × (Apart a b sets → All (λ g. NotBoth g.1) groups)
  unfolding find_duplicate_groups_in_groups
  groups-together [] h = ([], refl, λ _. tt)
  groups-together ((j, g) ∷ groups) (hg, h) =
      let (sets, p, rest) = groups-together groups h in
      elim (Bool-cases (ltb (length g) 2)) [
        | inl y ↦ (
          sets,
          rw (y, p),
          λ apart. (
            λ ma mb.
                let many = ltb→lt 1 (length g) (two_members a b g n ma mb) in
                omega (arith, many, ltb→lt (length g) 2 y),
            rest apart,
          ),
        )
        | inr k ↦ (
          classes walk (length g) g ++ sets,
          rw (
            k,
            find_duplicates-eq-classes walk g
                (All-map (IsListed ks) HasMetadata (λ x i. i.0) g hg.each),
            p,
          ),
          λ apart.
              let (here, later) = All-of_append NotBoth (classes walk (length g) g) sets apart in
              (
                λ ma mb.
                    classes-together walk normal a b (length g) g n e (omega arith)
                      (listed-ComparesBy g hg.each) ma mb here,
                rest later,
              ),
        )
      ]

  in_group_at :
      (key : Option String × Option ℕ) (groups : Groups)
      → All (λ g. NotBoth g.1) groups
      → NotBoth (group_at key groups)
  in_group_at key [] h ma mb = not-mem-nil ma
  in_group_at key ((j, g) ∷ groups) (hg, h) ma mb = elim (Bool-cases (j == key)) [
    | inl y ↦ hg (rw y at ma) (rw y at mb)
    | inr k ↦ in_group_at key groups h (rw k at ma) (rw k at mb)
  ]

module _ {K : Type 0} (hash_field : K → String) (additional : K → Option String)
    (walk : List String → List String) (normal : KernelDict → String)
    (order : List (Row K) → List (Row K)) (rows : List (Row K)) where
  abbrev pub dict : Row K → KernelDict
  dict = kernel_dict hash_field additional

  pub generic-together :
      (r s : Row K)
      → IsOrderBy OldestFirst order
      → AllHaveMetadata hash_field additional rows
      → ComparesBy walk normal (map dict rows)
      → Mem r rows
      → Mem s rows
      → (dict r).hash_value ≢ (dict s).hash_value
      → grouping_key (dict r) ≡ grouping_key (dict s)
      → normal (dict r) ≡ normal (dict s)
      → Apart (dict r) (dict s) (find_duplicates_generic walk hash_field additional order none rows)
      → ⊥
  unfolding find_duplicates_generic
  generic-together r s o m c ir is n key e apart =
      let ks = map dict (order rows) in
      let same_members = Perm.map dict (o.perm rows) in
      let c' : ComparesBy walk normal ks =
        λ x y mx my. c x y ((Perm.mem_iff same_members).0 mx) ((Perm.mem_iff same_members).0 my) in
      let have : All HasMetadata ks = All-of_map HasMetadata dict (order rows) (
        All-of_mem _ (order rows)
          (λ r i. AllHaveMetadata-at hash_field additional rows m ((mem-order o rows).0 i))) in
      let grouped =
        group_kernels_by_name_and_size-IsGroup (IsListed ks) ks
          (All-of_mem (IsListed ks) ks
            (λ k i. (of_All HasMetadata (λ k. Bool-set _ _) ks have i, i)))
          (Ordered-kernel_dict hash_field additional (order rows) (o.ordered rows)) in
      let (sets, p, rest) =
        groups-together walk normal ks (dict r) (dict s) n e c' (group_kernels_by_name_and_size ks)
          grouped in
      let groups = group_kernels_by_name_and_size ks in
      let one_key = grouping_key (dict r) in
      let apart' : Apart (dict r) (dict s) sets = rw p at apart in
      let in_ks : (x : Row K) → Mem x rows → Mem (dict x) ks =
        λ x i. mem-map_of_mem dict ((mem-order o rows).1 i) in
      in_group_at walk normal ks (dict r) (dict s) n e c' one_key groups (rest apart')
        (rw (group_at-group_kernels_by_name_and_size one_key ks)
          (mem-keep (λ k. grouping_key k == one_key) ks (in_ks r ir) (==_self one_key)))
        (rw (group_at-group_kernels_by_name_and_size one_key ks) (
          mem-keep (λ k. grouping_key k == one_key) ks (in_ks s is)
            ((==_iff (grouping_key (dict s)) one_key).1 (sym key))))
