-- ===== src/Cli/Display/Size.antt =====
-- Sizes as `format_size` (utils/utils.py) prints them.
use mcu.Base.{ℕ, ◌+◌, ◌*◌, ◌/◌, ◌%◌, ◌≤◌, ◌<◌, ◌≡◌, refl, ap, ◌∙◌, String, ◌<>◌, ltb, arith}
use mcu.Base.{◌⊎◌, inl, inr, Bool-cases, ltb→lt}
use mcu.Base.Int.{pos}
use mcu.Base.Text.{show_ℤ}
use mcu.Cli.Display.{tenths, show_tenths, format_size}

-- `t` tenths of a unit are at most half a tenth away from `n`.
abbrev pub IsNearest : ℕ → ℕ → ℕ → Type 0
IsNearest n unit t = (2 * (t * unit) ≤ 2 * (n * 10) + unit) × (2 * (n * 10) ≤ 2 * (t * unit) + unit)

one_more : (q unit : ℕ) → (q + 1) * unit ≡ q * unit + unit
one_more q unit = grind arith

to_even : (q unit : ℕ) → ((q + q % 2) * unit ≡ q * unit) ⊎ ((q + q % 2) * unit ≡ q * unit + unit)
to_even q unit = elim (Bool-cases (ltb (q % 2) 1)) [
  | inl y ↦ let e : q + q % 2 ≡ q = omega (arith, ltb→lt (q % 2) 1 y) in inl (ap (λ x. x * unit) e)
  | inr n' ↦
      let e : q + q % 2 ≡ q + 1 = ground arith in inr (ap (λ x. x * unit) e ∙ one_more q unit)
]

tenths-IsNearest : (n unit : ℕ) → 0 < unit → IsNearest n unit (tenths n unit)
unfolding tenths
tenths-IsNearest n unit h =
    let q = n * 10 / unit in
    let r = n * 10 % unit in
    let e : (q * unit + r ≡ n * 10) × (r < unit) = omega arith in
    elim (Bool-cases (ltb (2 * r) unit)) [
      | inl y ↦
          rw y (omega (arith, e, ltb→lt (2 * r) unit y), omega (arith, e, ltb→lt (2 * r) unit y))
      | inr n' ↦ rw n' (elim (Bool-cases (ltb unit (2 * r))) [
        | inl y ↦
            let u = one_more q unit in
            let l = ltb→lt unit (2 * r) y in rw y (omega (arith, e, u, l), omega (arith, e, u, l))
        | inr no_less ↦
            let tie : 2 * r ≡ unit = ground arith in
            elim (to_even q unit) [
              | inl u ↦ rw no_less (omega (arith, e, u, tie), omega (arith, e, u, tie))
              | inr u ↦ rw no_less (omega (arith, e, u, tie), omega (arith, e, u, tie))
            ]
      ])
    ]

-- A size is printed in bytes below 1024, and else in tenths of a unit of 1024, 1024² or 1024³ bytes
-- that is not above the size: the nearest number of tenths, at most 10240 but for the last unit.
abbrev pub IsPrinted : ℕ → Type 0
IsPrinted n =
    ((n < 1024) × (format_size n ≡ show_ℤ (pos n) <> " B"))
    ⊎ ((unit t : ℕ) × (name : String) × (format_size n ≡ show_tenths t <> name)
        × (unit ≤ n)
        × IsNearest n unit t
        × (((unit ≡ 1024) × (name ≡ " KB") × (t ≤ 10240))
            ⊎ (((unit ≡ 1024 * 1024) × (name ≡ " MB") × (t ≤ 10240))
                ⊎ ((unit ≡ 1024 * 1024 * 1024) × (name ≡ " GB")))))

-- What is printed for a size is its number of bytes, if that is below 1024, or the number of tenths
-- of a unit of 1024, 1024² or 1024³ bytes that is nearest to it; the unit is not above the size.
pub format_size_lem : (n : ℕ) → IsPrinted n
unfolding format_size
format_size_lem n = elim (Bool-cases (ltb n 1024)) [
  | inl y ↦ inl (ltb→lt n 1024 y, rw (y, format_size) refl)
  | inr b ↦ elim (Bool-cases (ltb n (1024 * 1024))) [
    | inl y ↦
        let near = tenths-IsNearest n (1024) (omega arith) in
        inr (
          1024,
          tenths n (1024),
          " KB",
          rw (b, y, format_size) refl,
          ground arith,
          near,
          inl (refl, refl, omega (arith, near, ltb→lt n (1024 * 1024) y)),
        )
    | inr k ↦ elim (Bool-cases (ltb n (1024 * 1024 * 1024))) [
      | inl y ↦
          let near = tenths-IsNearest n (1024 * 1024) (omega arith) in
          inr (
            1024 * 1024,
            tenths n (1024 * 1024),
            " MB",
            rw (b, k, y, format_size) refl,
            ground arith,
            near,
            inr (inl (refl, refl, omega (arith, near, ltb→lt n (1024 * 1024 * 1024) y))),
          )
      | inr m ↦
          let near = tenths-IsNearest n (1024 * 1024 * 1024) (omega arith) in
          inr (
            1024 * 1024 * 1024,
            tenths n (1024 * 1024 * 1024),
            " GB",
            rw (b, k, m, format_size) refl,
            ground arith,
            near,
            inr (inr (refl, refl)),
          )
    ]
  ]
]
