-- ===== src/Data/Duplicates/Metadata.antt =====
-- `_are_kernel_metadata_jsons_duplicates` (data/database.py) decides whether two metadata objects
-- agree outside the key "hash", whatever the order in which the set of keys is walked.
use mathlib.Core.Bool.{Bool-set, false≢true}
use mathlib.Core.Logic.Or
use mathlib.Core.List.{
  Mem, mem-cons, mem-cons_self, mem-cons_of_mem, not-mem-nil, Nodup, Nodup-nil, Nodup-cons, Perm,
  Mem-prop,
}
use mathlib.Core.List.{mem-append}
use mathlib.Core.List.Perm
use mcu.Base.{
  String, ◌≡◌, refl, sym, ◌∙◌, ◌≢◌, ◌↔◌, ◌⊎◌, ap, Bool, true, false, not, some, List, [], ◌∷◌,
}
use mcu.Base.{arith, ◌==◌, ==_iff, ==_self, string_eq, ok, Bool-cases, inl, inr, map}
use mcu.Base.Members.{mem-of_keep, mem-keep, Nodup-keep}
use mcu.Base.Dict
use mcu.Base.Dict.{Dict}
use mcu.Models.Json.{Value, null, equal}
use mcu.Data.Duplicates.{value_of, differs, scan, distinct, all_keys, are_duplicates}

-- Outside the key "hash" both objects give equal values, a missing key being a null.
abbrev pub SameButHash : Dict String Value → Dict String Value → Type 0
SameButHash m1 m2 = (k : String) → k ≢ "hash" → equal (value_of k m1) (value_of k m2) ≡ true

module _ (m1 m2 : Dict String Value) where
  -- once a key other than "hash" has differed, the answer is no
  scan_other : (ks : List String) → scan m1 m2 ks 1 false ≡ false
  unfolding scan
  scan_other [] = refl
  scan_other (k ∷ ks) = ground (arith, scan_other ks)

  abbrev Agree : List String → Type 0
  Agree ks = (k : String) → Mem k ks → differs m1 m2 k ≡ false

  abbrev AgreeButHash : List String → Type 0
  AgreeButHash ks = (k : String) → Mem k ks → k ≢ "hash" → differs m1 m2 k ≡ false

  Agree-cons : (k : String) (ks : List String) → differs m1 m2 k ≡ false → Agree ks → Agree (k ∷ ks)
  Agree-cons k ks d h j m = Or.elim (Bool-set _ _) (mem-cons.0 m) (λ e. rw e d) (h j)

  -- once "hash" has differed, every key left must agree
  scan_hash : (ks : List String) → (scan m1 m2 ks 1 true ≡ true) ↔ Agree ks
  unfolding scan
  scan_hash [] = (λ h k m. absurd (not-mem-nil m), λ h. refl)
  scan_hash (k ∷ ks) = elim (Bool-cases (differs m1 m2 k)) [
    | inl d ↦ rw (d, scan) (λ h. absurd (false≢true h), λ h. cc (h k mem-cons_self))
    | inr d ↦ (
      λ h. Agree-cons k ks d ((scan_hash ks).0 (rw (d, scan) at h)),
      λ h. rw (d, scan) ((scan_hash ks).1 (λ j m. h j (mem-cons_of_mem k m))),
    )
  ]

  scan_fresh : (ks : List String) → Nodup ks → (scan m1 m2 ks 0 false ≡ true) ↔ AgreeButHash ks
  unfolding scan
  scan_fresh [] u = (λ h k m. absurd (not-mem-nil m), λ h. refl)
  scan_fresh (k ∷ ks) u = elim (Bool-cases (differs m1 m2 k)) [
    | inr d ↦ (
      λ h j m n.
          Or.elim (Bool-set _ _) (mem-cons.0 m) (λ e. rw e d)
            (λ m'. (scan_fresh ks (Nodup-cons.0 u).1).0 (rw (d, scan) at h) j m' n),
      λ h.
          rw (d, scan)
            ((scan_fresh ks (Nodup-cons.0 u).1).1 (λ j m n. h j (mem-cons_of_mem k m) n)),
    )
    | inl d ↦ elim (Bool-cases (k == "hash")) [
      | inr other ↦ (
        λ h. absurd (false≢true (cc (scan_other ks, rw (d, other, scan) at h))),
        λ h. absurd (
            false≢true
              (cc (d, h k mem-cons_self (λ e. false≢true (cc (other, (==_iff k "hash").1 e)))))),
      )
      | inl is_hash ↦
          let e : k ≡ "hash" = (==_iff k "hash").0 is_hash in
          (
            λ h j m n.
                Or.elim (Bool-set _ _) (mem-cons.0 m) (λ p. absurd (n (p ∙ e)))
                  (λ m'. (scan_hash ks).0 (rw (d, is_hash, scan) at h) j m'),
            λ h.
                rw (d, is_hash, scan)
                  ((scan_hash ks).1 (λ j m.
                    h j (mem-cons_of_mem k m) (λ p. (Nodup-cons.0 u).0 (rw (e ∙ sym p) m)))),
          )
    ]
  ]

distinct-Nodup : (ks : List String) → Nodup (distinct ks)
unfolding distinct
distinct-Nodup [] = Nodup-nil
distinct-Nodup (k ∷ ks) = Nodup-cons.1 (
  λ m. false≢true (cc (==_self k, (mem-of_keep (λ j. not (j == k)) (distinct ks) m).1)),
  Nodup-keep (λ j. not (j == k)) (distinct ks) (distinct-Nodup ks),
)

mem-distinct : (ks : List String) (k : String) → Mem k ks → Mem k (distinct ks)
unfolding distinct
mem-distinct [] k m = m
mem-distinct (j ∷ ks) k m = elim (Bool-cases (k == j)) [
  | inl e ↦ rw ((==_iff k j).0 e) mem-cons_self
  | inr n ↦
      Or.elim Mem-prop (mem-cons.0 m) (λ e. rw e mem-cons_self)
        (λ m'. mem-cons_of_mem j (mem-keep _ (distinct ks) (mem-distinct ks k m') (rw n)))
]

-- a key that is not listed reads as null
value_of-absent :
    (k : String) (m : Dict String Value) → (Mem k (map (λ p. p.0) m)) ⊎ (value_of k m ≡ null)
unfolding value_of Dict.get
value_of-absent k [] = inr refl
value_of-absent k ((j, v) ∷ m) = elim (Bool-cases (j == k)) [
  | inl e ↦ inl (rw ((==_iff j k).0 e) mem-cons_self)
  | inr n ↦ elim (value_of-absent k m) [
    | inl h ↦ inl (mem-cons_of_mem j h)
    | inr h ↦ inr (rw (n, value_of, Dict.get) h)
  ]
]

mem-all_keys :
    (m1 m2 : Dict String Value) (k : String) → (Mem k (all_keys m1 m2)) ⊎ (differs m1 m2 k ≡ false)
unfolding all_keys equal
mem-all_keys m1 m2 k = elim (value_of-absent k m1) [
  | inl h ↦ inl (mem-distinct _ k (mem-append.1 (Or.inl h)))
  | inr e1 ↦ elim (value_of-absent k m2) [
    | inl h ↦ inl (mem-distinct _ k (mem-append.1 (Or.inr h)))
    | inr e2 ↦ inr (rw (e1, e2))
  ]
]

-- Two metadata objects are reported as duplicates exactly if they have equal values under every key
-- other than "hash", a missing key counting as a null, in whatever order the set of keys is walked.
pub are_duplicates_iff :
    (walk : List String → List String) (m1 m2 : Dict String Value)
    → ((ks : List String) → Perm (walk ks) ks)
    → (are_duplicates walk (some m1) (some m2) ≡ ok true) ↔ SameButHash m1 m2
unfolding are_duplicates
are_duplicates_iff walk m1 m2 w = (
  λ h k n. elim (mem-all_keys m1 m2 k) [
    | inl m ↦ not_false ((scan_fresh m1 m2 ks u).0 (ok-injective h) k ((Perm.mem_iff (w _)).1 m) n)
    | inr d ↦ not_false d
  ],
  λ s. ap ok ((scan_fresh m1 m2 ks u).1 (λ k m n. ap not (s k n))),
)
  where
    ks : List String
    ks = walk (all_keys m1 m2)

    u : Nodup ks
    u = Perm.nodup (Perm.symm (w _)) (unfold all_keys in distinct-Nodup _)

    not_false : {b : Bool} → not b ≡ false → b ≡ true
    not_false {b = true} h = refl
    not_false {b = false} h = cc

    ok-injective : {b : Bool} → ok b ≡ ok true → b ≡ true
    ok-injective h = cc
