-- ===== src/Data/Search/Matches.antt =====
-- When a row matches the criteria of a search, and that the filters of
-- `build_common_search_filters` (utils/utils.py) select such rows.
use mcu.Base.{ℕ, ◌+◌, ◌<◌, ◌≡◌, refl, ◌↔◌, String, true, Option, none, some, List, arith, ltb}
use mathlib.Core.Bool.{false≢true}
use mcu.Base.{[], ◌∷◌, ◌++◌, Option-cases, inl, inr, ==_iff, string_eq}
use mcu.Base.Int.{ℤ, pos_part, neg_part}
use mcu.Models.{SearchCriteria}
use mcu.Data.Rows.{Row}
use mcu.Data.Search.{selects_all, build_common_search_filters}
use mcu.Data.Search.{
  equality_filter_configs, column_value, Filter, Attribute, cache_dir, name, backend, arch,
  equal_to,
}
use mcu.Data.Search.{hits_below, hits_above, modified_before, modified_after, optionally, null_or}

-- A criterion that is given has the value of the column; one that is not given asks nothing.
abbrev pub Equals : Option String → Option String → Type 0
Equals none v = Unit
Equals (some s) v = v ≡ some s

abbrev pub HitsBelow : Option ℤ → ℕ → Type 0
HitsBelow none h = Unit
HitsBelow (some n) h = h + neg_part n < pos_part n

abbrev pub HitsAbove : Option ℤ → ℕ → Type 0
HitsAbove none h = Unit
HitsAbove (some n) h = pos_part n < h + neg_part n

-- A row without a time is neither older nor younger than anything.
abbrev pub Before : Option ℕ → Option ℕ → Type 0
Before none m = Unit
Before (some t) m = (at : ℕ) × (m ≡ some at) × (at < t)

abbrev pub After : Option ℕ → Option ℕ → Type 0
After none m = Unit
After (some t) m = (at : ℕ) × (m ≡ some at) × (t < at)

pub record Matches {K : Type 0} (dir : K → String) (c : SearchCriteria) (r : Row K) : Type 0 where
  pub cache_dir : Equals c.cache_dir (some (dir r.key))
  pub name : Equals c.name r.columns.name
  pub backend : Equals c.backend r.columns.backend
  pub arch : Equals c.arch r.columns.arch
  pub hits_below : HitsBelow c.cache_hit_lower r.columns.runtime_hits
  pub hits_above : HitsAbove c.cache_hit_higher r.columns.runtime_hits
  pub older : Before c.older_than_timestamp r.columns.modified_time
  pub younger : After c.younger_than_timestamp r.columns.modified_time

module _ {K : Type 0} (dir : K → String) (r : Row K) where
  abbrev Sel : List Filter → Type 0
  Sel fs = selects_all dir fs r ≡ true

  Sel-append : (fs gs : List Filter) → Sel (fs ++ gs) ↔ (Sel fs × Sel gs)
  unfolding selects_all
  Sel-append [] gs = ground arith
  Sel-append (f ∷ fs) gs = ground (arith, Sel-append fs gs)

  Sel-equal_to :
      (o : Option String) (a : Attribute)
      → Sel (optionally o (λ v. equal_to a v)) ↔ Equals o (column_value dir r a)
  unfolding selects_all
  Sel-equal_to none a = (λ h. tt, λ h. refl)
  Sel-equal_to (some s) a = elim (Option-cases (column_value dir r a)) [
    | inl e ↦ rw e (ground arith)
    | inr (w, e) ↦ rw e (ground (arith, ==_iff w s))
  ]

  Sel-hits_below :
      (o : Option ℤ) → Sel (optionally o hits_below) ↔ HitsBelow o r.columns.runtime_hits
  unfolding selects_all
  Sel-hits_below none = (λ h. tt, λ h. refl)
  Sel-hits_below (some n) = ground arith

  Sel-hits_above :
      (o : Option ℤ) → Sel (optionally o hits_above) ↔ HitsAbove o r.columns.runtime_hits
  unfolding selects_all
  Sel-hits_above none = (λ h. tt, λ h. refl)
  Sel-hits_above (some n) = ground arith

  before_lem : (m : Option ℕ) (t : ℕ) → (null_or m (λ v. ltb v t) ≡ true) ↔ Before (some t) m
  before_lem none t = (λ h. absurd (false≢true h), λ h. cc (h.1))
  before_lem (some v) t = (λ h. (v, refl, ground arith), λ h. ground (arith, h.1, h.2))

  after_lem : (m : Option ℕ) (t : ℕ) → (null_or m (λ v. ltb t v) ≡ true) ↔ After (some t) m
  after_lem none t = (λ h. absurd (false≢true h), λ h. cc (h.1))
  after_lem (some v) t = (λ h. (v, refl, ground arith), λ h. ground (arith, h.1, h.2))

  Sel-modified_before :
      (o : Option ℕ) → Sel (optionally o modified_before) ↔ Before o r.columns.modified_time
  unfolding selects_all
  Sel-modified_before none = (λ h. tt, λ h. refl)
  Sel-modified_before (some t) = (
    λ h. (before_lem r.columns.modified_time t).0 (ground arith),
    λ h. ground (arith, (before_lem r.columns.modified_time t).1 h),
  )

  Sel-modified_after :
      (o : Option ℕ) → Sel (optionally o modified_after) ↔ After o r.columns.modified_time
  unfolding selects_all
  Sel-modified_after none = (λ h. tt, λ h. refl)
  Sel-modified_after (some t) = (
    λ h. (after_lem r.columns.modified_time t).0 (ground arith),
    λ h. ground (arith, (after_lem r.columns.modified_time t).1 h),
  )

  module _ (c : SearchCriteria) where
    abbrev eqs : Attribute → Option String → List Filter
    eqs a o = optionally o (λ v. equal_to a v)

    abbrev others : List Filter
    others =
        optionally c.cache_hit_lower hits_below
        ++ (optionally c.cache_hit_higher hits_above
            ++ (optionally c.older_than_timestamp modified_before
                ++ optionally c.younger_than_timestamp modified_after))

    abbrev equalities : List Filter
    equalities =
        eqs cache_dir c.cache_dir
        ++ (eqs name c.name ++ (eqs backend c.backend ++ (eqs arch c.arch ++ [])))

    Sel-others : Sel others ↔ (
        HitsBelow c.cache_hit_lower r.columns.runtime_hits
        × HitsAbove c.cache_hit_higher r.columns.runtime_hits
        × Before c.older_than_timestamp r.columns.modified_time
        × After c.younger_than_timestamp r.columns.modified_time)
    Sel-others = (
      λ h.
          let (l, h1) = (Sel-append _ _).0 h in
          let (g, h2) = (Sel-append _ _).0 h1 in
          let (o, y) = (Sel-append _ _).0 h2 in
          (
            (Sel-hits_below _).0 l,
            (Sel-hits_above _).0 g,
            (Sel-modified_before _).0 o,
            (Sel-modified_after _).0 y,
          ),
      λ h. (Sel-append _ _).1 (
        (Sel-hits_below _).1 h.0,
        (Sel-append _ _).1 (
          (Sel-hits_above _).1 h.1,
          (Sel-append _ _).1 ((Sel-modified_before _).1 h.2, (Sel-modified_after _).1 h.3),
        ),
      ),
    )

    Sel-equalities : Sel equalities ↔ (
        Equals c.cache_dir (some (dir r.key))
        × Equals c.name r.columns.name
        × Equals c.backend r.columns.backend
        × Equals c.arch r.columns.arch)
    unfolding column_value selects_all
    Sel-equalities = (
      λ h.
          let (d, h1) = (Sel-append _ _).0 h in
          let (n, h2) = (Sel-append _ _).0 h1 in
          let (b, h3) = (Sel-append _ _).0 h2 in
          let (a, h4) = (Sel-append _ _).0 h3 in
          (
            (Sel-equal_to _ cache_dir).0 d,
            (Sel-equal_to _ name).0 n,
            (Sel-equal_to _ backend).0 b,
            (Sel-equal_to _ arch).0 a,
          ),
      λ h. (Sel-append _ _).1 (
        (Sel-equal_to _ cache_dir).1 h.0,
        (Sel-append _ _).1 (
          (Sel-equal_to _ name).1 h.1,
          (Sel-append _ _).1 (
            (Sel-equal_to _ backend).1 h.2,
            (Sel-append _ _).1 ((Sel-equal_to _ arch).1 h.3, refl),
          ),
        ),
      ),
    )

    -- The filters of a criterion select exactly the rows that match it.
    pub selects-Matches :
        Sel (build_common_search_filters c equality_filter_configs) ↔ Matches dir c r
    unfolding build_common_search_filters equality_filter_configs
    selects-Matches = (
      λ h.
          let (e, o) = (Sel-append equalities others).0 h in
          let (d, n, b, a) = Sel-equalities.0 e in
          let (l, g, x, y) = Sel-others.0 o in
          record {
            cache_dir = d;
            name = n;
            backend = b;
            arch = a;
            hits_below = l;
            hits_above = g;
            older = x;
            younger = y;
          },
      λ m. (Sel-append equalities others).1 (
        Sel-equalities.1 (m.cache_dir, m.name, m.backend, m.arch),
        Sel-others.1 (m.hits_below, m.hits_above, m.older, m.younger),
      ),
    )
