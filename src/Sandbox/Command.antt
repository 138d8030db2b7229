-- ===== src/Sandbox/Command.antt =====
-- `SandboxConfig`, and `_build_command` of `DockerSandboxExecutor`. Texts are lists of code points, a
-- number of cores is a `Float`, and `str_float` its text.
pub mod Laws
use agentcook.Prelude.{
  ℕ, Bool, true, List, [], ◌∷◌, ◌++◌, Option, none, some, ◌==◌, is_empty, if◌then◌else◌,
}
use agentcook.Prelude.Chars.{Chars, codes}

pub data NetworkMode : Type 0 where
  none_mode bridge host : NetworkMode

abbrev pub value : NetworkMode → Chars
value none_mode = codes "none"
value bridge = codes "bridge"
value host = codes "host"

pub record SandboxConfig (Float : Type 0) : Type 0 where
  pub image : Chars
  pub timeout : ℕ
  pub memory_limit : Chars
  pub cpu_limit : Float
  pub network_mode : NetworkMode
  pub read_only : Bool
  pub tmpfs_size : Chars
  pub workdir : Chars
  pub env : List (Chars × Chars)
  pub allowed_domains : List Chars

-- The defaults, where `half` is 0.5.
abbrev pub default_config : {Float : Type 0} → Float → SandboxConfig Float
default_config half = record {
  image = codes "agentcook-plugin-sandbox:latest";
  timeout = 30;
  memory_limit = codes "512m";
  cpu_limit = half;
  network_mode = none_mode;
  read_only = true;
  tmpfs_size = codes "64m";
  workdir = codes "/plugin";
  env = [];
  allowed_domains = [];
}

abbrev pub quote : ℕ
quote = b'\''

-- `code.replace("'", "'\\''")`.
unfoldable pub escape : Chars → Chars
escape [] = []
escape (c ∷ code) =
    let rest = escape code in if c == quote then quote ∷ b'\\' ∷ quote ∷ quote ∷ rest else c ∷ rest

-- The text between `echo ` and the redirection.
abbrev pub quoted : Chars → Chars
quoted code = quote ∷ (escape code ++ quote ∷ [])

abbrev pub redirection : Chars → Chars
redirection script_name =
    codes " > /tmp/" ++ (script_name ++ (codes " && python /tmp/" ++ script_name))

abbrev pub shell_line : Chars → Chars → Chars
shell_line code script_name = codes "echo " ++ (quoted code ++ redirection script_name)

abbrev env_options : List (Chars × Chars) → List Chars
env_options [] = []
env_options ((env_key, env_val) ∷ env) = codes "-e" ∷ (env_key ++ b'=' ∷ env_val) ∷ env_options env

abbrev pub mount_options : Chars → Option Chars → List Chars
mount_options workdir none = []
mount_options workdir (some plugin_dir) =
    if is_empty plugin_dir
    then []
    else codes "-v" ∷ (plugin_dir ++ b':' ∷ (workdir ++ codes ":ro")) ∷ []

module _ {Float : Type 0} (str_float : Float → Chars) (docker : Chars)
    (cfg : SandboxConfig Float) where
  unfoldable pub base_options : Chars → List Chars
  base_options container_name =
      docker
      ∷ codes "run"
      ∷ codes "--name"
      ∷ container_name
      ∷ codes "--rm"
      ∷ codes "--cpus"
      ∷ str_float cfg.cpu_limit
      ∷ codes "--memory"
      ∷ cfg.memory_limit
      ∷ codes "--network"
      ∷ value cfg.network_mode
      ∷ codes "--security-opt"
      ∷ codes "no-new-privileges"
      ∷ codes "--pids-limit"
      ∷ codes "64"
      ∷ []

  abbrev pub read_only_options : List Chars
  read_only_options =
      if cfg.read_only
      then codes "--read-only" ∷ codes "--tmpfs" ∷ (codes "/tmp:size=" ++ cfg.tmpfs_size) ∷ []
      else []

  unfoldable pub build_command : Chars → Chars → Chars → Option Chars → List Chars
  build_command container_name code script_name plugin_dir =
      base_options container_name
      ++ (read_only_options
          ++ (mount_options cfg.workdir plugin_dir
              ++ (codes "-w"
                  ∷ cfg.workdir
                  ∷ (env_options cfg.env
                      ++ cfg.image ∷ codes "sh" ∷ codes "-c" ∷ shell_line code script_name ∷ []))))
