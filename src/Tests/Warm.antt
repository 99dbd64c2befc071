-- ===== src/Tests/Warm.antt =====
-- Runs of the warm command.
use mcu.Base.{◌≡◌, refl, true, false, some, none, [], ◌∷◌, ok, string_eq, list_eq}
use mcu.Base.Text.{stem}
use mcu.Base.Dict.{put}
use mcu.Cache.Disk.{dir, file, node_at}
use mcu.Services.Warm.{WarmEnv, WarmOptions, NamedPath, exited, starting, successful}
use mcu.Services.Warm.{run_container, execute_warm, podman_command, make_service}
use mcu.Services.Warm.Laws.{container, warm_tarball_fails, warm_lem}

-- All goes well.
abbrev env : WarmEnv
env = record {
  timestamp = "2025-07-01_12-00-00";
  makedirs = λ p d. d;
  podman = λ c d. (exited 0, d);
  mkdir_denied = λ p. false;
  archive = λ base root d. ok 7;
  broken_archive = λ p d. d;
}

abbrev output : NamedPath
output = record { parent = "out" ∷ []; name = "warmed_cache.tar.gz" }

abbrev options : WarmOptions
options = record {
  model = "facebook/opt-125m";
  output_file = output;
  host_cache_dir = ".";
  hug_face_token = none;
  vllm_cache_dir = "";
  tarball = true;
  rocm = false;
}

abbrev plain : WarmOptions
plain = record options { tarball = false }

nothing_there : (node_at ("out" ∷ "warmed_cache.tar.gz" ∷ []) (container env options []).2) ≡ none
unfolding node_at run_container
nothing_there = refl

warm_tarball_fails_example : (execute_warm env options []).0.1 ≡ some 1
warm_tarball_fails_example = warm_tarball_fails env options [] refl (rw nothing_there refl)

warm_lem_example :
    (execute_warm env plain []).0 ≡ (starting "facebook/opt-125m" ∷ successful "." ∷ [], none)
warm_lem_example = warm_lem env plain [] refl

-- The archive is there, under its own name.
packed :
    (execute_warm env options []).1
    ≡ ("out" ∷ [], dir) ∷ ("out" ∷ "warmed_cache.tar.tar.gz" ∷ [], file 7) ∷ []
unfolding execute_warm stem node_at put
packed = refl

command_runs :
    podman_command (make_service "m" (some "s") "" "./cache_1") "img" false
    ≡ "podman" ∷ "run" ∷ "--privileged" ∷ "-it" ∷ "--device" ∷ "nvidia.com/gpu=all" ∷ "-e"
      ∷ "MODEL_NAME=m" ∷ "-e" ∷ "VLLM_CACHE_ROOT=/root/.cache/vllm" ∷ "-e" ∷ "HF_TOKEN=s"
      ∷ "--volume" ∷ "./cache_1:/root/.cache/vllm:Z,rw" ∷ "img" ∷ []
unfolding podman_command make_service
command_runs = refl
