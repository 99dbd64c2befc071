-- ===== src/Base/Text/Stem.antt =====
-- A name is its stem followed by its suffix, and a suffix holds one dot.
use Prim.Native.Char.{Char, code}
use Prim.Native.String.{String, ◌++◌}
use mathlib.Core.Path.{◌≡◌, sym, ◌∙◌, ap}
use mathlib.Core.Logic.{◌≢◌, inl, inr}
use mathlib.Core.Option.{none, some}
use text.Mathlib.Text.{◌==◌}
use text.Mathlib.TextLemmas.{append_cancel_left, cons-append, nil-append, append-nil}
use mcu.Base.Tests.{nat_eqb, Bool-cases, Option-cases}
use mcu.Base.Text.{last_dot, before_last_dot, suffix, stem}

-- After the last dot there is none.
last_dot-tail :
    (s : String) {t : String}
    → last_dot s ≡ some t
    → (c : Char) × (t' : String) × (t ≡ String.◌∷◌ c t') × (last_dot t' ≡ none)
unfolding last_dot
last_dot-tail String.[] h = cc
last_dot-tail (String.◌∷◌ c s) {t} h = elim (Option-cases (last_dot s)) [
  | inr (u, e) ↦ last_dot-tail s (e ∙ (rw (e, last_dot) at h))
  | inl e ↦ elim (Bool-cases (nat_eqb (code c) b'.')) [
    | inl y ↦ (c, s, cc (rw (e, y, last_dot) at h), e)
    | inr n ↦ absurd (cc (rw (e, n, last_dot) at h))
  ]
]

before-last_dot : (s : String) {t : String} → last_dot s ≡ some t → (before_last_dot s ++ t) ≡ s
unfolding last_dot before_last_dot
before-last_dot String.[] h = cc
before-last_dot (String.◌∷◌ c s) {t} h = elim (Option-cases (last_dot s)) [
  | inr (u, e) ↦
      let p : some u ≡ some t = rw (e, last_dot) at h in
      rw (e, before_last_dot)
        (cons-append c (before_last_dot s) t ∙ ap (λ r. String.◌∷◌ c r) (before-last_dot s (e ∙ p)))
  | inl e ↦ elim (Bool-cases (nat_eqb (code c) b'.')) [
    | inl y ↦
        let p : some (String.◌∷◌ c s) ≡ some t = rw (e, y, last_dot) at h in
        rw (e, y, before_last_dot) (nil-append t ∙ cc p)
    | inr n ↦ absurd (cc (rw (e, n, last_dot) at h))
  ]
]

pub stem-append-suffix : (n : String) → (stem n ++ suffix n) ≡ n
unfolding stem suffix
stem-append-suffix String.[] = nil-append ""
stem-append-suffix (String.◌∷◌ c s) = elim (Option-cases (last_dot s)) [
  | inl e ↦ rw (e, stem, suffix) (append-nil (String.◌∷◌ c s))
  | inr (t, e) ↦ elim (Bool-cases (t == ".")) [
    | inl y ↦ rw (e, y, stem, suffix) (append-nil (String.◌∷◌ c s))
    | inr n ↦
        rw (e, n, stem, suffix)
          (cons-append c (before_last_dot s) t ∙ ap (λ r. String.◌∷◌ c r) (before-last_dot s e))
  ]
]

two_dots : (t : String) → last_dot t ≡ none → t ≢ "tar.gz"
unfolding last_dot
two_dots t h p = cc (ap last_dot (sym p) ∙ h)

not_empty : ◌≢◌ {A = String} "" ".tar.gz"
not_empty p = cc

suffix-ne : (n : String) → suffix n ≢ ".tar.gz"
unfolding suffix
suffix-ne String.[] p = not_empty p
suffix-ne (String.◌∷◌ c s) p = elim (Option-cases (last_dot s)) [
  | inl e ↦ not_empty (rw (e, suffix) at p)
  | inr (t, e) ↦ elim (Bool-cases (t == ".")) [
    | inl y ↦ not_empty (rw (e, y, suffix) at p)
    | inr n ↦
        let (d, t', q, h) = last_dot-tail s e in
        let r : t ≡ ".tar.gz" = rw (e, n, suffix) at p in two_dots t' h (cc (q, r))
  ]
]

-- An archive named after the stem of a name has another name.
pub stem-ne : (n : String) → (stem n ++ ".tar.gz") ≢ n
stem-ne n p =
    suffix-ne n (append_cancel_left (stem n) (suffix n) ".tar.gz" (stem-append-suffix n ∙ sym p))
