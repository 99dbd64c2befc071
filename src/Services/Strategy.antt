-- ===== src/Services/Strategy.antt =====
-- What differs between the modes: `TritonStrategy` and `VllmStrategy` (strategies/*.py) and the
-- tests on `mode` in services/prune.py.
pub mod Rows
use mcu.Base.{String, ◌<>◌, Bool, false, ◌&&◌, Option, none, some, List, [], ◌∷◌}
use mcu.Base.{Result, ◌==◌, string_eq}
use mcu.Models.{FilePath}
use mcu.Data.Rows.{KernelKey, VllmKey, Row, FileRow}
use mcu.Cache.Identifier.{Mode, triton, vllm, KernelIdentifier, create_kernel_identifier}

slashed : FilePath → String
slashed [] = ""
slashed (n ∷ p) = ("/" <> n) <> slashed p

-- `str(path)`
unfoldable pub path_str : FilePath → String
unfolding slashed
path_str [] = "/"
path_str (n ∷ p) = slashed (n ∷ p)

pub record Strategy (K : Type 0) : Type 0 where
  pub mode : Mode
  -- `extract_identifiers_from_row`
  pub extract_identifier : Row K → Result KernelIdentifier
  -- the tuple that `_get_kernel_record` hands to `session.get`
  pub record_key : String → KernelIdentifier → List String
  -- the filter of `_delete_ir_file_records`, without its test of `rel_path`
  pub owns_ir_row : String → KernelIdentifier → FileRow K → Bool
  -- the column that `estimate_space` compares with the hashes
  pub hash_of : K → String

-- `TritonStrategy.extract_identifiers_from_row`
unfoldable pub extract_triton_identifier : Row KernelKey → Result KernelIdentifier
unfolding create_kernel_identifier
extract_triton_identifier r =
    create_kernel_identifier triton
      (record { hash = some r.key.hash; triton_cache_key = none; vllm_hash = none })

-- `VllmStrategy.extract_identifiers_from_row`
unfoldable pub extract_vllm_identifier : Row VllmKey → Result KernelIdentifier
unfolding create_kernel_identifier
extract_vllm_identifier r = create_kernel_identifier vllm (record {
  hash = none;
  triton_cache_key = some r.key.triton_cache_key;
  vllm_hash = some r.key.vllm_hash;
})

unfoldable pub triton_strategy : Strategy KernelKey
unfolding extract_triton_identifier
triton_strategy = record {
  mode = triton;
  extract_identifier = extract_triton_identifier;
  record_key = λ cache_dir i. i.hash_key ∷ cache_dir ∷ [];
  owns_ir_row = λ cache_dir i f. f.owner.hash == i.hash_key;
  hash_of = λ k. k.hash;
}

-- In vLLM mode `identifier.vllm_hash` is compared as it is; `None` equals no text.
abbrev is_hash : String → Option String → Bool
is_hash s none = false
is_hash s (some h) = s == h

abbrev hash_or_null : Option String → String
hash_or_null none = ""
hash_or_null (some h) = h

unfoldable pub vllm_strategy : Strategy VllmKey
unfolding extract_vllm_identifier
vllm_strategy = record {
  mode = vllm;
  extract_identifier = extract_vllm_identifier;
  record_key = λ cache_dir i. cache_dir ∷ hash_or_null i.vllm_hash ∷ i.hash_key ∷ [];
  owns_ir_row = λ cache_dir i f.
      f.owner.vllm_cache_root == cache_dir
      && is_hash f.owner.vllm_hash i.vllm_hash
      && f.owner.triton_cache_key == i.hash_key;
  hash_of = λ k. k.triton_cache_key;
}
