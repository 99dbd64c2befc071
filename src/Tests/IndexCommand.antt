-- ===== src/Tests/IndexCommand.antt =====
-- A run of the index command on a directory with one kernel.
use mcu.Base.{◌≡◌, refl, true, some, none, length, ok}
use mcu.Data.Rows.{kernel_key_eq}
use mcu.Data.Upsert.{find_row}
use mcu.Data.Upsert.Laws.{key_of}
use mcu.Data.Search.{search, search_vllm}
use mcu.Cache.Disk.{path_exists, node_at}
use mcu.Cache.Identifier.{triton}
use mcu.Index.Service.{in_directory}
use mcu.Index.Service.Latest.{yielded, ending, latest, values_or}
use mcu.Data.Rows.{common_kernel_values}
use mcu.Index.Service.Laws.{stored_under}
use mcu.Cli.Commands.{resolve_mode}
use mcu.Cli.Index.{IndexEnv, execute_index}
use mcu.Cli.Index.Laws.{walk, report_for, execute_index_lem}
use mcu.Tests.Order.{newest_first}
use mcu.Tests.Samples.{root, clock, two_kernels, two_vllm_kernels}
use mcu.Tests.Index.{files, cache, validate}
use mcu.Tests.Cli.{settings}

abbrev pub index_env : IndexEnv
index_env = record {
  search = search newest_first none;
  search_vllm = search_vllm newest_first none;
  files = files;
  validate = validate;
  clock = clock;
  fault = λ k. none;
}

is_triton : resolve_mode settings (some "triton") none cache ≡ ok triton
unfolding resolve_mode
is_triton = refl

is_there : path_exists root cache ≡ true
unfolding node_at
is_there = refl

execute_index_lem_example :
    let (r, t', v') =
      execute_index settings index_env (some "triton") none cache (two_kernels, two_vllm_kernels) in
    let ys = walk settings index_env (some "triton") none cache in
    (r
      ≡ report_for
          (ending ys)
          (length (yielded ys))
          (length (index_env.search (in_directory root) two_kernels)))
    × (find_row (key_of "h1" "/c") t'.kernels
        ≡ values_or
            (common_kernel_values clock)
            (find_row (key_of "h1" "/c") two_kernels.kernels)
            (latest (stored_under root) (key_of "h1" "/c") (yielded ys)))
    × (v' ≡ two_vllm_kernels)
execute_index_lem_example =
    execute_index_lem settings index_env (some "triton") none cache two_kernels two_vllm_kernels
      (key_of "h1" "/c") is_triton is_there refl
