-- ===== src/Cli/Display.antt =====
-- `format_size` and `mod_time_handle` (utils/utils.py), `_display_kernels_table` (cli/main.py). A
-- cell of the table that holds None is `none`; the widths and styles of the columns are left out.
pub mod Size
pub mod Laws
use mcu.Base.{
  ℕ, zero, suc, ◌+◌, ◌*◌, ◌/◌, ◌%◌, String, ◌<>◌, Bool, Option, none, some, List, [], ◌∷◌, ltb,
}
use mcu.Base.{length, if◌then◌else◌, Result, ok, err, unexpected, value_error, os_error, ◌>>=◌}
use mcu.Base.Int.{ℤ, pos}
use mcu.Base.Text.{show_ℤ}
use mcu.Data.Rows.{KernelKey, VllmKey, Row}

-- `n / unit` in tenths, rounded to the nearest and a tie to the even one, as `.1f` does. Below 2 ^ 53
-- the quotient is exact.
unfoldable pub tenths : ℕ → ℕ → ℕ
tenths n unit =
    let q = n * 10 / unit in
    let twice = 2 * (n * 10 % unit) in
    if ltb twice unit then q else if ltb unit twice then suc q else q + q % 2

unfoldable pub show_tenths : ℕ → String
unfolding show_ℤ
show_tenths t = show_ℤ (pos (t / 10)) <> ("." <> show_ℤ (pos (t % 10)))

unfoldable pub format_size : ℕ → String
unfolding tenths show_tenths
format_size n =
    if ltb n 1024
    then show_ℤ (pos n) <> " B"
    else if ltb n (1024 * 1024)
    then show_tenths (tenths n 1024) <> " KB"
    else if ltb n (1024 * 1024 * 1024)
    then show_tenths (tenths n (1024 * 1024)) <> " MB"
    else show_tenths (tenths n (1024 * 1024 * 1024)) <> " GB"

-- `local` prints an instant as the local date and time, or raises; `OSError` and `ValueError` are
-- caught.
unfoldable pub mod_time_handle : (ℕ → Result String) → Option ℕ → Result String
mod_time_handle local none = ok "N/A"
mod_time_handle local (some t) = elim (local t) [
  | ok s ↦ ok s
  | err value_error ↦ ok "Invalid Date"
  | err os_error ↦ ok "Invalid Date"
  | err e ↦ err e
]

-- `s[:n]`
abbrev pub take_text : ℕ → String → String
take_text zero s = ""
take_text (suc n) String.[] = ""
take_text (suc n) (String.◌∷◌ c s) = String.◌∷◌ c (take_text n s)

-- A line of the table, its cells from left to right.
pub record Line : Type 0 where
  pub hash : String
  pub name : Option String
  pub hits : String
  pub last_access : String
  pub backend : Option String
  pub arch : Option String
  pub version : Option String
  pub warps : String
  pub size : String
  pub dir : String

pub data Display : Type 0 where
  no_kernels : Display
  shown : ℕ → List Line → Display

-- `str(row_dict.get("num_warps", "N/A"))`; the key is always there.
abbrev show_warps : Option ℤ → String
show_warps none = "None"
show_warps (some n) = show_ℤ n

-- What a key gives to the first and to the last cell. Keys of vLLM have no `cache_dir`.
pub record Shown (K : Type 0) : Type 0 where
  pub hash_mode : K → String
  pub cache_dir : K → String

abbrev pub triton_shown : Shown KernelKey
triton_shown = record {
  hash_mode = λ k. take_text 12 k.hash <> "...";
  cache_dir = λ k. k.cache_dir;
}

abbrev pub vllm_shown : Shown VllmKey
vllm_shown = record { hash_mode = λ k. k.vllm_hash; cache_dir = λ k. "N/A" }

module _ {K : Type 0} (by_mode : Shown K) (local : ℕ → Result String) where
  unfoldable pub line : Row K → ℕ → String → Line
  unfolding show_ℤ format_size
  line r total_size last_access = record {
    hash = by_mode.hash_mode r.key;
    name = r.columns.name;
    hits = show_ℤ (pos r.columns.runtime_hits);
    last_access = last_access;
    backend = r.columns.backend;
    arch = r.columns.arch;
    version = r.columns.triton_version;
    warps = show_warps r.columns.num_warps;
    size = format_size total_size;
    dir = by_mode.cache_dir r.key;
  }

  -- `format_size(None)` raises `TypeError`.
  unfoldable pub lines : List (Row K) → Result (List Line)
  unfolding line mod_time_handle
  lines [] = ok []
  lines (r ∷ rs) = elim r.columns.total_size [
    | none ↦ err unexpected
    | some n ↦ (do
      last_access ← mod_time_handle local (some r.columns.last_access_time)
      rest ← lines rs
      ok (line r n last_access ∷ rest))
  ]

  -- `_display_kernels_table`
  unfoldable pub display_kernels_table : List (Row K) → Result Display
  unfolding lines
  display_kernels_table [] = ok no_kernels
  display_kernels_table (r ∷ rs) = do ls ← lines (r ∷ rs); ok (shown (length (r ∷ rs)) ls)
