-- ===== src/Sandbox/Command.antt =====
-- gateway/sandbox/profiles.py and gateway/sandbox/runtimes.py, and the command line that
-- gateway/sandbox/runner.py gives to Docker. Durations are in microseconds, and a number of CPUs is
-- its text; the texts of numbers and of resolved paths are parameters.
use mcp_gateway.Base.{
  ℕ, String, ◌<>◌, Bool, false, List, [], ◌∷◌, ◌++◌, ◌==◌, string_eq, if◌then◌else◌,
}
use mcp_gateway.Errors.{other}
use mcp_gateway.Effect.{Result, ok, raise}

pub record SandboxProfile : Type 0 where
  pub name : String
  pub timeout : ℕ
  pub memory : String
  pub cpus : String
  pub pids_limit : ℕ
  pub network : Bool
  pub workspace : String

unfoldable pub profile_for_tool : String → String → Result SandboxProfile
profile_for_tool tool_name workspace =
    if tool_name == "db_query"
    then ok (record {
      name = "db_query";
      timeout = 10000000;
      memory = "256m";
      cpus = "1.0";
      pids_limit = 32;
      network = false;
      workspace = workspace;
    })
    else if tool_name == "shell_exec"
    then ok (record {
      name = "shell_exec";
      timeout = 5000000;
      memory = "128m";
      cpus = "0.5";
      pids_limit = 16;
      network = false;
      workspace = workspace;
    })
    else raise (other ("No sandbox profile exists for " <> tool_name))

pub data SandboxRuntime : Type 0 where
  gvisor hardened_docker : SandboxRuntime

unfoldable pub runtime_arguments : SandboxRuntime → List String
runtime_arguments SandboxRuntime.gvisor = "--runtime" ∷ "runsc" ∷ []
runtime_arguments SandboxRuntime.hardened_docker = "--security-opt" ∷ "no-new-privileges" ∷ []

-- A mount: the path on the host, the path in the container, and whether it is read-only.
pub record Mount : Type 0 where
  pub host_path : String
  pub container_path : String
  pub read_only : Bool

-- The configuration of a runner, with the texts that Python makes.
pub record RunnerConfig : Type 0 where
  pub runtime : SandboxRuntime
  pub image : String
  pub output_limit : ℕ
  pub digits : ℕ → String
  pub resolve : String → String
  pub cwd : String

module _ (c : RunnerConfig) where
  unfoldable pub mount_arguments : List Mount → List String
  mount_arguments [] = []
  mount_arguments (m ∷ ms) =
      "--mount"
      ∷ ("type=bind,src="
          <> c.resolve m.host_path
          <> ",dst="
          <> m.container_path
          <> ","
          <> (if m.read_only then "ro" else "rw"))
      ∷ mount_arguments ms

  abbrev seccomp_arguments : SandboxRuntime → List String
  seccomp_arguments SandboxRuntime.gvisor = []
  seccomp_arguments SandboxRuntime.hardened_docker =
      "--security-opt" ∷ ("seccomp=" <> c.resolve (c.cwd <> "/docker/seccomp/tool.json")) ∷ []

  -- All that stands before the image.
  unfoldable pub docker_options : String → SandboxProfile → List Mount → List String
  unfolding runtime_arguments mount_arguments
  docker_options container_name p mounts =
      "docker"
        ∷ "run"
        ∷ "--name"
        ∷ container_name
        ∷ "--rm"
        ∷ "--interactive"
        ∷ "--init"
        ∷ "--read-only"
        ∷ "--cap-drop=ALL"
        ∷ "--security-opt=no-new-privileges"
        ∷ (if p.network then "--network=bridge" else "--network=none")
        ∷ "--memory"
        ∷ p.memory
        ∷ "--cpus"
        ∷ p.cpus
        ∷ "--pids-limit"
        ∷ c.digits p.pids_limit
        ∷ "--tmpfs"
        ∷ "/workspace:rw,noexec,nosuid,nodev"
        ∷ "--workdir"
        ∷ "/workspace"
        ∷ "--env"
        ∷ "PYTHONPATH=/opt/gateway"
        ∷ runtime_arguments c.runtime
      ++ seccomp_arguments c.runtime
      ++ "--label" ∷ "mcp-gateway.sandbox=true" ∷ mount_arguments mounts

  unfoldable pub docker_command : String → SandboxProfile → List Mount → List String → List String
  unfolding docker_options
  docker_command container_name p mounts command =
      docker_options container_name p mounts ++ c.image ∷ command
