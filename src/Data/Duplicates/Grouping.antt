-- ===== src/Data/Duplicates/Grouping.antt =====
-- `_group_kernels_by_name_and_size` (data/database.py): what its groups keep of the list.
use mathlib.Core.List.{append-nil, append_assoc}
use mathlib.Core.Bool.{false≢true}
use mcu.Base.{false, keep, if◌then◌else◌, arith, ap, ◌∙◌}
use mcu.Base.{ℕ, ◌≤◌, String, ◌≡◌, refl, sym}
use mcu.Base.{Option, List, [], ◌∷◌, ◌++◌, All, All-append}
use mcu.Base.{Ordered, Ordered-append, Bool-cases, inl, inr}
use mcu.Base.{◌==◌, ==_iff, string_eq, nat_eq, option_eq, pair_eq, All-map}
use mcu.Data.Search.{sort_key}
use mcu.Data.Duplicates.{KernelDict, Groups, grouping_key, append_to, group_onto}
use mcu.Data.Duplicates.{group_kernels_by_name_and_size}

abbrev pub Older : KernelDict → KernelDict → Type 0
Older a b = sort_key a.modified_time ≤ sort_key b.modified_time

-- An entry of the dictionary of groups, while `ks` are still to be grouped.
pub record IsGroup (P : KernelDict → Type 0) (ks : List KernelDict)
    (g : (Option String × Option ℕ) × List KernelDict) : Type 0 where
  pub ordered : Ordered Older g.1
  pub keyed : All (λ a. grouping_key a ≡ g.0) g.1
  pub before_rest : All (λ a. All (Older a) ks) g.1
  pub each : All P g.1

module _ (P : KernelDict → Type 0) where
  rest-IsGroup :
      (k : KernelDict) (ks : List KernelDict) (groups : Groups)
      → All (IsGroup P (k ∷ ks)) groups
      → All (IsGroup P ks) groups
  rest-IsGroup k ks groups =
      All-map (IsGroup P (k ∷ ks)) (IsGroup P ks)
        (λ g h. record {
          ordered = h.ordered;
          keyed = h.keyed;
          before_rest =
              All-map (λ a. All (Older a) (k ∷ ks)) (λ a. All (Older a) ks) (λ a x. x.1) g.1
                h.before_rest;
          each = h.each;
        })
        groups

  append-IsGroup :
      (k : KernelDict) (ks : List KernelDict) (j : Option String × Option ℕ) (g : List KernelDict)
      → P k
      → All (Older k) ks
      → j ≡ grouping_key k
      → IsGroup P (k ∷ ks) (j, g)
      → IsGroup P ks (j, g ++ (k ∷ []))
  append-IsGroup k ks j g p o e h = record {
    ordered =
        Ordered-append Older g (k ∷ []) h.ordered (tt, tt)
          (All-map (λ a. All (Older a) (k ∷ ks)) (λ a. All (Older a) (k ∷ [])) (λ a x. (x.0, tt)) g
            h.before_rest);
    keyed = All-append (λ a. grouping_key a ≡ j) g (k ∷ []) h.keyed (sym e, tt);
    before_rest =
        All-append (λ a. All (Older a) ks) g (k ∷ [])
          (All-map (λ a. All (Older a) (k ∷ ks)) (λ a. All (Older a) ks) (λ a x. x.1) g
            h.before_rest)
          (o, tt);
    each = All-append P g (k ∷ []) h.each (p, tt);
  }

  append_to-IsGroup :
      (k : KernelDict) (ks : List KernelDict) (groups : Groups)
      → P k
      → All (Older k) ks
      → All (IsGroup P (k ∷ ks)) groups
      → All (IsGroup P ks) (append_to (grouping_key k) k groups)
  unfolding append_to
  append_to-IsGroup k ks [] p o h =
      (record { ordered = (tt, tt); keyed = (refl, tt); before_rest = (o, tt); each = (p, tt) }, tt)
  append_to-IsGroup k ks ((j, g) ∷ groups) p o (hg, h) = elim (Bool-cases (j == grouping_key k)) [
    | inl y ↦ rw y (
      append-IsGroup k ks j g p o ((==_iff j (grouping_key k)).0 y) hg,
      rest-IsGroup k ks groups h,
    )
    | inr n ↦
        rw n ((rest-IsGroup k ks ((j, g) ∷ []) (hg, tt)).0, append_to-IsGroup k ks groups p o h)
  ]

  group_onto-IsGroup :
      (ks : List KernelDict) (groups : Groups)
      → All P ks
      → Ordered Older ks
      → All (IsGroup P ks) groups
      → All (IsGroup P []) (group_onto groups ks)
  unfolding group_onto
  group_onto-IsGroup [] groups p o h = h
  group_onto-IsGroup (k ∷ ks) groups (pk, p) (ok', o) h =
      group_onto-IsGroup ks _ p o (append_to-IsGroup k ks groups pk ok' h)

  -- Every group of the dictionary has one name and one size, keeps the order of the list, and holds
  -- what held of the kernels of the list.
  pub group_kernels_by_name_and_size-IsGroup :
      (ks : List KernelDict)
      → All P ks
      → Ordered Older ks
      → All (IsGroup P []) (group_kernels_by_name_and_size ks)
  unfolding group_kernels_by_name_and_size
  group_kernels_by_name_and_size-IsGroup ks p o = group_onto-IsGroup ks [] p o tt

-- The group under a key.
abbrev pub group_at : Option String × Option ℕ → Groups → List KernelDict
group_at key [] = []
group_at key ((j, g) ∷ groups) = if j == key then g else group_at key groups

group_at-append_to :
    (key : Option String × Option ℕ) (k : KernelDict) (groups : Groups)
    → group_at key (append_to (grouping_key k) k groups)
      ≡ group_at key groups ++ (if grouping_key k == key then k ∷ [] else [])
unfolding append_to
group_at-append_to key k [] = ground arith
group_at-append_to key k ((j, g) ∷ groups) = elim (Bool-cases (j == grouping_key k)) [
  | inl y ↦
      rw (y, (==_iff j (grouping_key k)).0 y)
        (elim (Bool-cases (grouping_key k == key)) [
          | inl h ↦ rw h refl
          | inr h ↦ rw h (sym (append-nil (group_at key groups)))
        ])
  | inr n ↦ rw n (elim (Bool-cases (j == key)) [
    | inl h ↦
        let other : (grouping_key k == key) ≡ false = elim (Bool-cases (grouping_key k == key)) [
          | inl h' ↦ absurd (
              false≢true (
                sym n
                ∙ (==_iff j (grouping_key k)).1
                    ((==_iff j key).0 h ∙ sym ((==_iff (grouping_key k) key).0 h'))))
          | inr h' ↦ h'
        ] in
        rw (h, other) (sym (append-nil g))
    | inr h ↦ rw h (group_at-append_to key k groups)
  ])
]

group_at-group_onto :
    (key : Option String × Option ℕ) (ks : List KernelDict) (groups : Groups)
    → group_at key (group_onto groups ks)
      ≡ group_at key groups ++ keep (λ k. grouping_key k == key) ks
unfolding group_onto
group_at-group_onto key [] groups = sym (append-nil (group_at key groups))
group_at-group_onto key (k ∷ ks) groups =
    let rest = keep (λ j. grouping_key j == key) ks in
    group_at-group_onto key ks (append_to (grouping_key k) k groups)
    ∙ ap (λ l. l ++ rest) (group_at-append_to key k groups)
    ∙ elim (Bool-cases (grouping_key k == key)) [
      | inl h ↦ rw h (append_assoc (group_at key groups) (k ∷ []) rest)
      | inr h ↦ rw h (ap (λ l. l ++ rest) (append-nil (group_at key groups)))
    ]

-- The group under a key has exactly the kernels with that key, in the order of the list.
pub group_at-group_kernels_by_name_and_size :
    (key : Option String × Option ℕ) (ks : List KernelDict)
    → group_at key (group_kernels_by_name_and_size ks) ≡ keep (λ k. grouping_key k == key) ks
unfolding group_kernels_by_name_and_size
group_at-group_kernels_by_name_and_size key ks = group_at-group_onto key ks []
