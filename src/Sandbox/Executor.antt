-- ===== src/Sandbox/Executor.antt =====
-- `SandboxResult`, `DockerSandboxExecutor.run` and `SubprocessSandboxExecutor.run`. `spawn` is
-- `subprocess.run` and `World` what processes change; the name of a container and the milliseconds that
-- a run took are arguments, and so is `lower`, Python's `str.lower`.
pub mod Laws
use agentcook.Prelude.{
  String, ℕ, ◌+◌, Bool, true, false, not, ◌&&◌, List, [], ◌∷◌, ◌++◌, Option, none, some, ◌==◌,
  if◌then◌else◌,
}
use agentcook.Prelude.Chars.{Chars, codes, same, strip}
use agentcook.Prelude.Strings.{show}
use agentcook.Prelude.Integers.{ℤ, negsuc, is_zero}
use agentcook.Sandbox.Command.{SandboxConfig, default_config, build_command}

pub record SandboxResult : Type 0 where
  pub exit_code : ℤ
  pub stdout : Chars
  pub stderr : Chars
  pub duration_ms : ℕ
  pub timed_out : Bool
  pub oom_killed : Bool
  pub container_id : Option Chars

unfoldable pub success : SandboxResult → Bool
success r = is_zero r.exit_code && not r.timed_out && not r.oom_killed

pub record Process : Type 0 where
  pub command : List Chars
  pub timeout : ℕ

-- What a process comes to: an end, a `TimeoutExpired`, a `FileNotFoundError`, or another exception.
pub data Outcome : Type 0 where
  completed : ℤ → Chars → Chars → Outcome
  expired not_found broken : Outcome

-- What a run comes to: a result, a `SandboxError`, or another exception.
pub data Ran : Type 0 where
  finished : SandboxResult → Ran
  sandbox_error : Chars → Ran
  propagated : Ran

abbrev timed_out_text : ℕ → Chars
timed_out_text timeout = codes "Execution timed out after " ++ (codes (show timeout) ++ codes "s")

abbrev timed_out_result : ℕ → ℕ → Option Chars → SandboxResult
timed_out_result timeout duration_ms container_id = record {
  exit_code = negsuc 0;
  stdout = [];
  stderr = timed_out_text timeout;
  duration_ms = duration_ms;
  timed_out = true;
  oom_killed = false;
  container_id = container_id;
}

abbrev completed_result : ℤ → Chars → Chars → ℕ → Bool → Option Chars → SandboxResult
completed_result code out err duration_ms oom_killed container_id = record {
  exit_code = code;
  stdout = out;
  stderr = err;
  duration_ms = duration_ms;
  timed_out = false;
  oom_killed = oom_killed;
  container_id = container_id;
}

-- `config or SandboxConfig()`.
abbrev pub config_or : {Float : Type 0} → Float → Option (SandboxConfig Float) → SandboxConfig Float
config_or half none = default_config half
config_or half (some cfg) = cfg

abbrev pub inspect : Chars → Chars → Process
inspect docker container_name = record {
  command =
      docker
      ∷ codes "inspect"
      ∷ container_name
      ∷ codes "--format"
      ∷ codes "{{.State.OOMKilled}}"
      ∷ [];
  timeout = 5;
}

abbrev pub removal : Chars → Chars → Process
removal docker container_name = record {
  command = docker ∷ codes "rm" ∷ codes "-f" ∷ container_name ∷ [];
  timeout = 10;
}

module _ {World : Type 0} (spawn : Process → World → Outcome × World) (docker : Chars)
    (lower : Chars → Chars) where
  -- The answer is none where another exception leaves the method.
  abbrev pub is_oom : Outcome → Option Bool
  is_oom (completed code out err) = some (same (lower (strip out)) (codes "true"))
  is_oom expired = some false
  is_oom not_found = some false
  is_oom broken = none

  unfoldable pub check_oom : Chars → World → Option Bool × World
  check_oom container_name world =
      let (outcome, world') = spawn (inspect docker container_name) world in
      (is_oom outcome, world')

  abbrev is_tried : Outcome → Bool
  is_tried (completed code out err) = true
  is_tried expired = true
  is_tried not_found = true
  is_tried broken = false

  -- Whether the method returned.
  unfoldable pub force_remove : Chars → World → Bool × World
  force_remove container_name world =
      let (outcome, world') = spawn (removal docker container_name) world in
      (is_tried outcome, world')

  -- What follows the end of the container's process.
  unfoldable pub after_process : Chars → ℕ → ℕ → Outcome → World → Ran × World
  after_process container_name timeout duration_ms (completed code out err) world =
      let (oom, world') = check_oom container_name world in
      elim oom [
        | none ↦ (propagated, world')
        | some oom_killed ↦ (
          finished (completed_result code out err duration_ms oom_killed (some container_name)),
          world',
        )
      ]
  after_process container_name timeout duration_ms expired world =
      let (returned, world') = force_remove container_name world in
      (
        (if returned
            then finished (timed_out_result timeout duration_ms (some container_name))
            else propagated),
        world',
      )
  after_process container_name timeout duration_ms not_found world = (
    sandbox_error (
        codes "Docker binary not found: "
        ++ (docker ++ codes ". Ensure Docker is installed and in PATH.")),
    world,
  )
  after_process container_name timeout duration_ms broken world = (propagated, world)

  module _ {Float : Type 0} (half : Float) (str_float : Float → Chars) where
    abbrev pub docker_process :
        Chars → Chars → Option (SandboxConfig Float) → Chars → Option Chars → Process
    docker_process container_name code config script_name plugin_dir =
        let cfg = config_or half config in
        record {
          command = build_command str_float docker cfg container_name code script_name plugin_dir;
          timeout = cfg.timeout;
        }

    unfoldable pub docker_run :
        Chars
        → ℕ
        → Chars
        → Option (SandboxConfig Float)
        → Chars
        → Option Chars
        → World
        → Ran × World
    docker_run container_name duration_ms code config script_name plugin_dir world =
        let (outcome, world') =
          spawn (docker_process container_name code config script_name plugin_dir) world in
        after_process container_name (config_or half config).timeout duration_ms outcome world'

-- `SubprocessSandboxExecutor.run`.
abbrev pub of_outcome : Chars → ℕ → ℕ → Outcome → Ran
of_outcome python timeout duration_ms (completed code out err) =
    finished (completed_result code out err duration_ms false none)
of_outcome python timeout duration_ms expired = finished (timed_out_result timeout duration_ms none)
of_outcome python timeout duration_ms not_found =
    sandbox_error (codes "Python binary not found: " ++ python)
of_outcome python timeout duration_ms broken = propagated

module _ {Float World : Type 0} (spawn : Process → World → Outcome × World) (python : Chars)
    (half : Float) where
  abbrev pub python_process : Chars → Option (SandboxConfig Float) → Process
  python_process code config = record {
    command = python ∷ codes "-c" ∷ code ∷ [];
    timeout = (config_or half config).timeout;
  }

  unfoldable pub subprocess_run : ℕ → Chars → Option (SandboxConfig Float) → World → Ran × World
  subprocess_run duration_ms code config world =
      let (outcome, world') = spawn (python_process code config) world in
      (of_outcome python (config_or half config).timeout duration_ms outcome, world')
