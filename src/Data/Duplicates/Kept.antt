-- ===== src/Data/Duplicates/Kept.antt =====
-- Two kernels of one set of `find_duplicates` (data/database.py): one of them is an older copy.
use mathlib.Core.List.{Mem, mem-cons, not-mem-nil}
use mathlib.Core.Logic.Or
use mathlib.Core.Bool.{Bool-set}
use mcu.Base.{◌≡◌, refl, sym, ◌∙◌, ◌≢◌, true, arith, List, [], ◌∷◌}
use mcu.Base.{ltb, ltb→lt, ◌==◌, ==_iff, ==_self, string_eq, sum_of-append}
use mcu.Base.{all_but_last, last_or, Bool-cases, inl, inr}
use mcu.Data.Duplicates.{KernelDict}
use mcu.Data.Duplicates.Once.{one, times}
use mcu.Data.Duplicates.Copies.{times-last}
use mcu.Data.Duplicates.Complete.{Apart}
use mcu.Cache.Identifier.Groups.{older_copies}

times-of_mem :
    (k : KernelDict) (ks : List KernelDict) → Mem k ks → ltb 0 (times k.hash_value ks) ≡ true
times-of_mem k [] m = absurd (not-mem-nil m)
times-of_mem k (x ∷ ks) m =
    Or.elim (Bool-set _ _) (mem-cons.0 m) (λ p. rw (← p, ==_self k.hash_value) (ground arith))
      (λ m'. ground (arith, times-of_mem k ks m'))

last_hash :
    (k x : KernelDict) (xs : List KernelDict)
    → times k.hash_value (all_but_last (x ∷ xs)) ≡ 0
    → Mem k (x ∷ xs)
    → (last_or x xs).hash_value ≡ k.hash_value
last_hash k x xs z m =
    let many = ltb→lt 0 (times k.hash_value (x ∷ xs)) (times-of_mem k (x ∷ xs) m) in
    elim (Bool-cases ((last_or x xs).hash_value == k.hash_value)) [
      | inl y ↦ (==_iff (last_or x xs).hash_value k.hash_value).0 y
      | inr n ↦
          let none_last : one k.hash_value (last_or x xs) ≡ 0 = rw n refl in
          absurd (omega (arith, many, times-last k.hash_value x xs, z, none_last))
    ]

-- Two kernels of different hashes, neither of which is an older copy, are in no set together.
pub kept-Apart :
    (a b : KernelDict) (sets : List (List KernelDict))
    → a.hash_value ≢ b.hash_value
    → times a.hash_value (older_copies sets) ≡ 0
    → times b.hash_value (older_copies sets) ≡ 0
    → Apart a b sets
kept-Apart a b [] n za zb = tt
kept-Apart a b ([] ∷ sets) n za zb = (λ ma mb. not-mem-nil ma, kept-Apart a b sets n za zb)
kept-Apart a b ((x ∷ xs) ∷ sets) n za zb =
    let sa = sum_of-append (one a.hash_value) (all_but_last (x ∷ xs)) (older_copies sets) in
    let sb = sum_of-append (one b.hash_value) (all_but_last (x ∷ xs)) (older_copies sets) in
    (
      λ ma mb. n (
          sym (last_hash a x xs (omega (arith, za, sa)) ma)
          ∙ last_hash b x xs (omega (arith, zb, sb)) mb),
      kept-Apart a b sets n (omega (arith, za, sa)) (omega (arith, zb, sb)),
    )
