-- ===== src/Services/Prune/Vllm.antt =====
-- Pruning in vLLM mode (services/prune.py): `_get_kernel_record` hands three values to `session.get`
-- and the primary key of `VllmKernelOrm` has four columns.
use mcu.Base.{Result, Result-cases, String, ◌≡◌, refl, ap, Bool, true, false, some, arith}
use mcu.Base.{
  List, [], ◌∷◌, map, ok, err, invalid_request, Error, value_error, Option-cases, length, inl, inr,
}
use mcu.Models.{FilePath, SearchCriteria}
use mcu.Data.Rows.{Row, Tables, VllmKey, vllm_key_eq}
use mcu.Cache.Disk.{Disk}
use mcu.Cache.Identifier.{KernelIdentifier, get_kernel_directories, find_vllm_kernel_dirs, vllm}
use mcu.Services.Session.{IsGet}
use mcu.Services.Strategy.{vllm_strategy, path_str}
use mcu.Services.Prune.{Env, World, begin, prune, prune_loop}
use mcu.Services.Prune.{delete_kernel_unified, identifiers_of_rows, finish}

-- The columns of the primary key of `VllmKernelOrm`.
abbrev pub vllm_pk : VllmKey → List String
vllm_pk k = k.vllm_cache_root ∷ k.vllm_hash ∷ k.triton_cache_key ∷ k.rank_x_y ∷ []

-- `session.get` as SQLAlchemy documents it for this table.
abbrev pub VllmGet : Env VllmKey → Type 0
VllmGet env = IsGet vllm_pk 4 env.get

abbrev vllm_identifier : Row VllmKey → KernelIdentifier
vllm_identifier r = record {
  mode = vllm;
  hash_key = r.key.triton_cache_key;
  vllm_hash = some r.key.vllm_hash;
}

-- The directories of the kernel of a row.
abbrev pub dirs_of_row : FilePath → Row VllmKey → Disk → Result (List FilePath)
dirs_of_row cache_dir r d = find_vllm_kernel_dirs cache_dir r.key.vllm_hash r.key.triton_cache_key d

module _ (cache_dir : FilePath) where
  identifiers_of_vllm_rows :
      (rows : List (Row VllmKey))
      → identifiers_of_rows vllm_strategy cache_dir rows ≡ ok (map vllm_identifier rows)
  unfolding identifiers_of_rows vllm_strategy
  identifiers_of_vllm_rows [] = refl
  identifiers_of_vllm_rows (r ∷ rows) = rw (identifiers_of_vllm_rows rows)

-- What the deletion of a kernel raises, by what `find_vllm_kernel_dirs` came to.
abbrev pub failure : Result (List FilePath) → Error
failure (ok dirs) = invalid_request
failure (err x) = x

module _ (cache_dir : FilePath) (env : Env VllmKey) (g : VllmGet env) where
  -- Whatever the identifier, the deletion of a vLLM kernel raises before it touches anything.
  pub delete_vllm_kernel_raises :
      (i : KernelIdentifier) (h : String) (ir_only : Bool) (w : World VllmKey)
      → i.vllm_hash ≡ some h
      → delete_kernel_unified vllm_strategy cache_dir env i ir_only w
        ≡ (err (failure (find_vllm_kernel_dirs cache_dir h i.hash_key w.disk)), w)
  unfolding delete_kernel_unified vllm_strategy get_kernel_directories
  delete_vllm_kernel_raises i h ir_only w p =
      elim (Result-cases (find_vllm_kernel_dirs cache_dir h i.hash_key w.disk)) [
        | inl (x, e) ↦ rw (p, e) refl
        | inr (ds, e) ↦
            let q = g.refuses (path_str cache_dir ∷ h ∷ i.hash_key ∷ []) w.tables (omega arith) in
            rw (p, e, vllm_strategy, p, q) refl
      ]

  -- So does that of an identifier without a `vllm_hash`.
  pub delete_any_vllm_raises :
      (i : KernelIdentifier) (w : World VllmKey)
      → (x : Error) × (delete_kernel_unified vllm_strategy cache_dir env i false w ≡ (err x, w))
  unfolding delete_kernel_unified vllm_strategy get_kernel_directories
  delete_any_vllm_raises i w = elim (Option-cases i.vllm_hash) [
    | inl e ↦ (value_error, rw e refl)
    | inr (h, e) ↦ (_, delete_vllm_kernel_raises i h false w e)
  ]

  loop_raises :
      (r : Row VllmKey) (is : List KernelIdentifier) (ir_only : Bool) (w : World VllmKey)
      → prune_loop vllm_strategy cache_dir env (vllm_identifier r ∷ is) ir_only 0 w
        ≡ (err (failure (dirs_of_row cache_dir r w.disk)), w)
  unfolding prune_loop
  loop_raises r is ir_only w =
      let e = delete_vllm_kernel_raises (vllm_identifier r) r.key.vllm_hash ir_only w refl in
      rw (e, ap (λ p. p.1) e, prune_loop) refl

  -- In vLLM mode a confirmed prune that finds any kernel raises, and changes neither the disk nor the
  -- tables: `InvalidRequestError` on the first kernel found, unless the search for the directories of
  -- that kernel raises an error of its own.
  pub prune_vllm_raises :
      (criteria : SearchCriteria) (ir_only : Bool) (d : Disk) (t : Tables VllmKey) (r : Row VllmKey)
      (rows : List (Row VllmKey))
      → env.search (record criteria { cache_dir = some (path_str cache_dir) }) t ≡ r ∷ rows
      → prune vllm_strategy cache_dir env criteria ir_only true d t
        ≡ (err (failure (dirs_of_row cache_dir r d)), d, t)
  unfolding prune vllm_strategy
  prune_vllm_raises criteria ir_only d t r rows found =
      rw (found, prune, identifiers_of_vllm_rows cache_dir (r ∷ rows))
        (ap (finish vllm_strategy cache_dir (length (map vllm_identifier (r ∷ rows))))
          (loop_raises r (map vllm_identifier rows) ir_only (begin d t)))
