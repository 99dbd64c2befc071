-- ===== src/Cache/Identifier/Groups.antt =====
-- `extract_identifiers_from_groups` (utils/utils.py) in Triton mode: all but the newest of a group.
use mcu.Base.{◌≡◌, refl, ap, List, [], ◌∷◌, ◌++◌, map, length, all_but_last, ltb, ok, none}
use mcu.Base.{if◌then◌else◌, arith}
use mcu.Data.Duplicates.{KernelDict}
use mcu.Cache.Identifier.{KernelIdentifier, triton, identifier_of_dict, identifiers_of_dicts}
use mcu.Cache.Identifier.{extract_identifiers_from_groups}

abbrev pub identifier_of : KernelDict → KernelIdentifier
identifier_of k = record { mode = triton; hash_key = k.hash_value; vllm_hash = none }

-- All but the last, the newest, of each group.
abbrev pub older_copies : List (List KernelDict) → List KernelDict
older_copies [] = []
older_copies (g ∷ groups) = all_but_last g ++ older_copies groups

abbrev pub identifiers_of : List (List KernelDict) → List KernelIdentifier
identifiers_of groups = map identifier_of (older_copies groups)

identifiers_of_dicts_lem :
    (ks : List KernelDict) → identifiers_of_dicts triton ks ≡ ok (map identifier_of ks)
unfolding identifiers_of_dicts identifier_of_dict
identifiers_of_dicts_lem [] = refl
identifiers_of_dicts_lem (k ∷ ks) = rw (identifiers_of_dicts_lem ks)

map-append :
    (xs ys : List KernelDict)
    → map identifier_of (xs ++ ys) ≡ map identifier_of xs ++ map identifier_of ys
map-append [] ys = refl
map-append (x ∷ xs) ys = ap (λ l. identifier_of x ∷ l) (map-append xs ys)

-- a group of at most one kernel has no older copy
of_group :
    (g : List KernelDict)
    → (if ltb 1 (length g) then identifiers_of_dicts triton (all_but_last g) else ok [])
      ≡ ok (map identifier_of (all_but_last g))
of_group [] = refl
of_group (x ∷ []) = refl
of_group (x ∷ y ∷ g) = ground (arith, identifiers_of_dicts_lem (all_but_last (x ∷ y ∷ g)))

pub extract_identifiers_lem :
    (groups : List (List KernelDict))
    → extract_identifiers_from_groups triton groups ≡ ok (identifiers_of groups)
unfolding extract_identifiers_from_groups
extract_identifiers_lem [] = refl
extract_identifiers_lem (g ∷ groups) =
    rw
      (
        of_group g,
        extract_identifiers_lem groups,
        map-append (all_but_last g) (older_copies groups),
      )
      refl
