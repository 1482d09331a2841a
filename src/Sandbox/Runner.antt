-- ===== src/Sandbox/Runner.antt =====
-- gateway/sandbox/runner.py: `SandboxRunner`. What Docker does with a command, and whether it removes
-- a container, are parameters; captured output is its size in bytes and its decoded text.
use mcp_gateway.Base.{
  ℕ, String, ◌<>◌, Bool, true, false, Option, none, some, List, [], ◌∷◌, ◌++◌, ltb, ◌||◌,
  if◌then◌else◌,
}
use mcp_gateway.Base.Json.{Json, obj, Fields}
use mcp_gateway.Errors.{Exn, gateway, other, sandbox_error, sandbox_timeout_error}
use mcp_gateway.Effect.{Result, ok, raise, Exec, lift, finally, ◌>>=◌}
use mcp_gateway.Sandbox.Command.{SandboxProfile, Mount, RunnerConfig, docker_command}

pub record Captured : Type 0 where
  pub size : ℕ
  pub text : String

-- How a process ends: within its timeout, with a code that is zero or the text of another one; not
-- within it; or the wait for it is broken off by an exception, such as a cancellation.
pub data Ended : Type 0 where
  exited : Option String → Captured → Captured → Ended
  timed_out : Ended
  interrupted : Exn → Ended

-- How a process starts. `missing` is `FileNotFoundError`.
pub data Started : Type 0 where
  started : Ended → Started
  missing : Started
  refused : Exn → Started

-- Docker, by the command line, the input and the time that a process is waited for; and the texts
-- that Python makes of a command, an error output and a JSON value, and the other way round.
pub record Docker : Type 0 where
  pub run : List String → Option String → ℕ → Started
  -- Whether `docker rm -f` of a container can be started.
  pub removes : String → Bool
  pub join : List String → String
  pub strip : String → String
  pub dumps : Fields → String
  pub loads : String → Option Json

pub data Event : Type 0 where
  spawned : List String → Event
  killed : Event
  removed : String → Event
  not_removed : String → Event

-- Whether the process of the command has started and not ended, and what has happened.
pub record Processes : Type 0 where
  pub running : Bool
  pub events : List Event

pub record SandboxResult : Type 0 where
  pub stdout : String
  pub stderr : String

abbrev pub log : Event → Processes → Processes
log e s = record s { events = s.events ++ e ∷ [] }

-- `process.kill()` and `await process.wait()`
abbrev pub kill : Processes → Processes
kill s = log killed (record s { running = false })

abbrev sandbox_failure : {A : Type 0} → String → Result A
sandbox_failure m = raise (gateway (sandbox_error m))

module _ (c : RunnerConfig) (d : Docker) where
  unfoldable pub check_output :
      List String → Option String → Captured → Captured → Result SandboxResult
  check_output command exit_code stdout stderr =
      if ltb c.output_limit stdout.size || ltb c.output_limit stderr.size
      then sandbox_failure "Sandbox output exceeded the configured limit"
      else elim exit_code [
        | none ↦ ok (record { stdout = stdout.text; stderr = stderr.text })
        | some code ↦ sandbox_failure (
            "Sandbox command failed with exit code "
            <> code
            <> ": "
            <> d.join command
            <> "; "
            <> d.strip stderr.text)
      ]

  -- From `process.communicate` on.
  unfoldable pub communicate : List String → Ended → Exec Processes SandboxResult
  unfolding check_output
  communicate command (exited exit_code stdout stderr) s =
      (check_output command exit_code stdout stderr, record s { running = false })
  communicate command timed_out s = (raise (gateway sandbox_timeout_error), kill s)
  communicate command (interrupted e) s = (raise e, s)

  abbrev pub begin : List String → List String → Started → Exec Processes SandboxResult
  begin command arguments (started ending) s =
      communicate command ending (log (spawned arguments) (record s { running = true }))
  begin command arguments missing s = (sandbox_failure "Docker executable is unavailable", s)
  begin command arguments (refused e) s = (raise e, s)

  -- The `finally` of `run`.
  unfoldable pub clean_up : String → Processes → Processes
  clean_up container_name s =
      let t = if s.running then kill s else s in
      log (if d.removes container_name then removed container_name else not_removed container_name)
        t

  unfoldable pub run :
      String
      → List String
      → SandboxProfile
      → List Mount
      → Option String
      → Exec Processes SandboxResult
  unfolding communicate clean_up docker_command
  run container_name command p mounts stdin =
      let arguments = docker_command c container_name p mounts command in
      finally (begin command arguments (d.run arguments stdin p.timeout)) (clean_up container_name)

  abbrev pub worker_object : Option Json → Result Fields
  worker_object none = raise (other "JSONDecodeError")
  worker_object (some (obj decoded)) = ok decoded
  worker_object (some _) = sandbox_failure "Sandbox worker returned an invalid JSON object"

  unfoldable pub run_worker : String → Fields → SandboxProfile → List Mount → Exec Processes Fields
  unfolding run
  run_worker container_name payload p mounts = do
    result ←
        run container_name ("python" ∷ "-m" ∷ "gateway.sandbox.worker" ∷ []) p mounts
          (some (d.dumps payload))
    lift (worker_object (d.loads result.stdout))
