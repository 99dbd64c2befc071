-- ===== src/Data/Duplicates/Copies.antt =====
-- The newest of each set that `find_duplicates` (data/database.py) reports, and the older copies.
use mcu.Base.{◌+◌, ◌≤◌, String, ◌≡◌, refl, arith}
use mcu.Base.{List, [], ◌∷◌, sum_of-append, all_but_last, last_or}
use mcu.Base.{All, All-map, ==_iff, string_eq}
use mcu.Data.Duplicates.{KernelDict}
use mcu.Cache.Identifier.Groups.{older_copies}
use mcu.Base.{option_eq, nat_eq, pair_eq}
use mcu.Data.Duplicates.Once.{one, times, times_in_sets}

-- The newest of each set.
abbrev pub newest_copies : List (List KernelDict) → List KernelDict
newest_copies [] = []
newest_copies ([] ∷ sets) = newest_copies sets
newest_copies ((k ∷ ks) ∷ sets) = last_or k ks ∷ newest_copies sets

pub times-last :
    (h : String) (k : KernelDict) (ks : List KernelDict)
    → times h (k ∷ ks) ≡ times h (all_but_last (k ∷ ks)) + one h (last_or k ks)
times-last h k [] = omega arith
times-last h k (j ∷ ks) = omega (arith, times-last h j ks)

times-copies :
    (h : String) (sets : List (List KernelDict))
    → times h (older_copies sets) + times h (newest_copies sets) ≡ times_in_sets h sets
times-copies h [] = refl
times-copies h ([] ∷ sets) = omega (arith, times-copies h sets)
times-copies h ((k ∷ ks) ∷ sets) = omega (
  arith,
  times-copies h sets,
  times-last h k ks,
  sum_of-append (one h) (all_but_last (k ∷ ks)) (older_copies sets),
)

occurs : (ks : List KernelDict) → All (λ k. 1 ≤ times k.hash_value ks) ks
occurs [] = tt
occurs (k ∷ ks) = (
  ground (arith, ==_iff k.hash_value k.hash_value),
  All-map (λ j. 1 ≤ times j.hash_value ks) (λ j. 1 ≤ times j.hash_value (k ∷ ks))
      (λ j l. omega (arith, l)) ks (occurs ks),
)

-- Where no hash occurs twice in the sets, that of a newest copy is not that of an older one.
pub newest-not_older :
    (sets : List (List KernelDict))
    → ((h : String) → times_in_sets h sets ≤ 1)
    → All (λ k. times k.hash_value (older_copies sets) ≡ 0) (newest_copies sets)
newest-not_older sets u =
    All-map (λ k. 1 ≤ times k.hash_value (newest_copies sets))
      (λ k. times k.hash_value (older_copies sets) ≡ 0)
      (λ k l. omega (arith, l, u k.hash_value, times-copies k.hash_value sets)) (newest_copies sets)
      (occurs (newest_copies sets))
