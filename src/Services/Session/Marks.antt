-- ===== src/Services/Session/Marks.antt =====
-- What the marks of a session (services/prune.py) say of the rows that they name.
use mathlib.Core.List.{Mem, mem-cons, not-mem-nil}
use mathlib.Core.Logic.Or
use mathlib.Core.Bool.{Bool-set}
use native.Mathlib.Bridge.{le_prop}
use mcu.Base.{ℕ, ◌<◌, ◌≡◌, refl, Bool, false, Option, some, arith, List, [], ◌∷◌, ◌++◌, map, keep}
use mcu.Base.{All, ◌==◌, Eq, nat_eq, if◌then◌else◌}
use mcu.Base.Members.{of_All}
use mcu.Data.Rows.{FileRow}
use mcu.Data.Upsert.Invariant.{UniqueIds}
use mcu.Services.Session.{any_eq, resized}

module _ {K : Type 0} ⦃e : Eq K⦄ where
  none_above :
      (p : FileRow K → Bool) (n : ℕ) (files : List (FileRow K))
      → All (λ f. n < f.id) files
      → any_eq n (map (λ f. f.id) (keep p files)) ≡ false
  unfolding any_eq
  none_above p n [] h = refl
  none_above p n (f ∷ files) (hf, h) = ground (arith, none_above p n files h)

  -- Where ids are unique, the ids of a selection tell the rows that were selected.
  pub any_eq-ids :
      (p : FileRow K → Bool) (files : List (FileRow K)) {f : FileRow K}
      → UniqueIds files
      → Mem f files
      → any_eq f.id (map (λ f. f.id) (keep p files)) ≡ p f
  unfolding any_eq
  any_eq-ids p [] u m = absurd (not-mem-nil m)
  any_eq-ids p (x ∷ files) {f} (hx, u) m =
      Or.elim (Bool-set _ _) (mem-cons.0 m) (λ e. rw e (ground (arith, none_above p x.id files hx)))
        (λ m'.
          let lt : x.id < f.id = of_All (λ g. x.id < g.id) (λ g. le_prop) files hx m' in
          ground (arith, any_eq-ids p files u m'))

  pub resized-append :
      (j k : K) (n : ℕ) (sizes : List (K × ℕ)) (old : Option ℕ)
      → resized j (sizes ++ ((k, n) ∷ [])) old ≡ (if k == j then some n else resized j sizes old)
  unfolding resized
  resized-append j k n [] old = refl
  resized-append j k n ((i, m) ∷ sizes) old =
      resized-append j k n sizes (if i == j then some m else old)
