-- ===== src/Index/Validator/Types.antt =====
-- The types of the files of a kernel (data/kernel_validator.py, plugins/cuda.py, plugins/rocm.py).
use mcu.Base.{String, ◌≡◌, refl, Bool, true, false, ◌||◌, ◌&&◌, ◌<>◌, if◌then◌else◌, ==_iff}
use mcu.Base.{Option, none, some, arith, ◌==◌, string_eq, Bool-cases, inl, inr}
use mathlib.Core.Path.{subst}
use mcu.Base.Dict.{get}
use mcu.Base.Text.{suffix}
use mcu.Index.Validator.{plugin_type, plugins, file_type_of}

-- The extensions that are kept: four for every backend, and two for each of the known ones.
abbrev pub has_extension : String → String → Bool
has_extension backend x =
    (".json" == x || (".ttir" == x || (".ttgir" == x || ".llir" == x)))
    || (("cuda" == backend && (".ptx" == x || ".cubin" == x))
        || ("hip" == backend && (".amdgcn" == x || ".hsaco" == x)))

-- A type is the extension without its dot, but for JSON.
abbrev pub names_type : String → String → Bool
names_type x t = if ".json" == x then t == "metadata" else "." <> t == x

abbrev pub IsTyped : String → String → Option String → Type 0
IsTyped backend x none = has_extension backend x ≡ false
IsTyped backend x (some t) = (has_extension backend x ≡ true) × (names_type x t ≡ true)

one_backend : (b : String) → ("cuda" == b) ≡ true → ("hip" == b) ≡ false
one_backend b e = rw (← (==_iff "cuda" b).0 e) refl

no_backend : (b : String) → (b == "") ≡ true → ("cuda" == b || "hip" == b) ≡ false
no_backend b e = rw ((==_iff b "").0 e) refl

module _ (b x : String)
    (uncommon : (".json" == x || (".ttir" == x || (".ttgir" == x || ".llir" == x))) ≡ false) where
  plugin_type-IsTyped : IsTyped b x (plugin_type x (get b plugins))
  unfolding get
  plugin_type-IsTyped = elim (Bool-cases ("cuda" == b)) [
    | inl c ↦ elim (Bool-cases (".ptx" == x)) [
      | inl y ↦ rw (get, c, y) (ground arith, ground (arith, y))
      | inr n ↦ elim (Bool-cases (".cubin" == x)) [
        | inl y ↦ rw (get, c, n, y) (ground arith, ground (arith, y))
        | inr n' ↦ rw (get, c, n, n') (ground (arith, one_backend b c))
      ]
    ]
    | inr c ↦ elim (Bool-cases ("hip" == b)) [
      | inl h ↦ elim (Bool-cases (".amdgcn" == x)) [
        | inl y ↦ rw (get, c, h, y) (ground arith, ground (arith, y))
        | inr n ↦ elim (Bool-cases (".hsaco" == x)) [
          | inl y ↦ rw (get, c, h, n, y) (ground arith, ground (arith, y))
          | inr n' ↦ rw (get, c, h, n, n') (ground arith)
        ]
      ]
      | inr h ↦ rw (get, c, h) (ground arith)
    ]
  ]

file_type_of-IsTyped : (b n : String) → IsTyped b (suffix n) (file_type_of b n)
unfolding file_type_of get
file_type_of-IsTyped b n = elim (Bool-cases (".json" == suffix n)) [
  | inl y ↦ rw (file_type_of, get, y) (ground arith, ground arith)
  | inr n1 ↦ elim (Bool-cases (".ttir" == suffix n)) [
    | inl y ↦ rw (file_type_of, get, n1, y) (ground arith, rw n1 y)
    | inr n2 ↦ elim (Bool-cases (".ttgir" == suffix n)) [
      | inl y ↦ rw (file_type_of, get, n1, n2, y) (ground arith, rw n1 y)
      | inr n3 ↦ elim (Bool-cases (".llir" == suffix n)) [
        | inl y ↦ rw (file_type_of, get, n1, n2, n3, y) (ground arith, rw n1 y)
        | inr n4 ↦ elim (Bool-cases (b == "")) [
          | inl y ↦ rw (file_type_of, get, n1, n2, n3, n4, y) (ground (arith, no_backend b y))
          | inr m ↦
              rw (file_type_of, get, n1, n2, n3, n4, m)
                (plugin_type-IsTyped b (suffix n) (ground arith))
        ]
      ]
    ]
  ]
]

-- Which files are kept, and under which type.
pub file_type-IsTyped :
    (b n : String) (t : Option String) → file_type_of b n ≡ t → IsTyped b (suffix n) t
file_type-IsTyped b n t e = subst (IsTyped b (suffix n)) e (file_type_of-IsTyped b n)
