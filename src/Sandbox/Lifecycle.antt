-- ===== src/Sandbox/Lifecycle.antt =====
-- What every run of gateway/sandbox/runner.py leaves behind, and what it lets out.
use mcp_gateway.Base.{
  ◌≤◌, String, ◌≡◌, refl, false, Option, none, some, List, [], ◌∷◌, ◌++◌, arith, if◌then◌else◌,
}
use mcp_gateway.Effect.{ok, finally, is_cut_off}
use mcp_gateway.Sandbox.Command.{SandboxProfile, Mount, RunnerConfig, docker_command}
use mcp_gateway.Sandbox.Runner.{
  Captured, exited, timed_out, interrupted, Started, started, missing, refused, Docker, Event,
  spawned, killed, removed, not_removed, Processes, SandboxResult, run, begin, communicate,
  check_output, clean_up,
}

module _ (c : RunnerConfig) (d : Docker) (name : String) (command : List String)
    (p : SandboxProfile) (mounts : List Mount) (stdin : Option String) (s : Processes) where
  abbrev arguments : List String
  arguments = docker_command c name p mounts command

  -- What `docker rm -f` came to.
  abbrev pub removal : Event
  removal = if d.removes name then removed name else not_removed name

  -- What has happened before the removal.
  abbrev pub before_removal : Started → List Event
  before_removal (started (exited code out err)) = s.events ++ spawned arguments ∷ []
  before_removal (started timed_out) = (s.events ++ spawned arguments ∷ []) ++ killed ∷ []
  before_removal (started (interrupted e)) = (s.events ++ spawned arguments ∷ []) ++ killed ∷ []
  before_removal missing = s.events
  before_removal (refused e) = s.events

  reaped :
      (x : Started)
      → s.running ≡ false
      → let (r, t) = finally (begin c d command arguments x) (clean_up c d name) s in
        (is_cut_off r ≡ false) × (t.running ≡ false) × (t.events ≡ before_removal x ++ removal ∷ [])
  unfolding finally clean_up communicate check_output
  reaped (started (exited code out err)) h = ground (arith, h)
  reaped (started timed_out) h = ground (arith, h)
  reaped (started (interrupted e)) h = ground (arith, h)
  reaped missing h = ground (arith, h)
  reaped (refused e) h = ground (arith, h)

  -- However the command of a call goes, `run` ends with no process of it running, and the last thing
  -- that it does is to ask for the removal of the call's container; before that the process was
  -- started at most once, and was killed if it was not awaited to its end.
  pub run-reaped :
      s.running ≡ false
      → let (r, t) = run c d name command p mounts stdin s in
        (is_cut_off r ≡ false)
        × (t.running ≡ false)
        × (t.events ≡ before_removal (d.run arguments stdin p.timeout) ++ removal ∷ [])
  unfolding run
  run-reaped h = reaped (d.run arguments stdin p.timeout) h

  -- The process was started with Docker's command line and ended with exit code zero, within the limit
  -- on both outputs, which are the result.
  pub record IsBounded (result : SandboxResult) : Type 0 where
    pub stdout : Captured
    pub stderr : Captured
    pub ended : d.run arguments stdin p.timeout ≡ started (exited none stdout stderr)
    pub stdout_size : stdout.size ≤ c.output_limit
    pub stderr_size : stderr.size ≤ c.output_limit
    pub stdout_text : result.stdout ≡ stdout.text
    pub stderr_text : result.stderr ≡ stderr.text

  bounded :
      (x : Started) (result : SandboxResult)
      → d.run arguments stdin p.timeout ≡ x
      → (finally (begin c d command arguments x) (clean_up c d name) s).0 ≡ ok result
      → IsBounded result
  unfolding finally communicate check_output
  bounded (started (exited none out err)) result e h = record {
    stdout = out;
    stderr = err;
    ended = e;
    stdout_size = ground (arith, h);
    stderr_size = ground (arith, h);
    stdout_text = ground (arith, h);
    stderr_text = ground (arith, h);
  }
  bounded (started (exited (some code) out err)) result e h = absurd (ground (arith, h))
  bounded (started timed_out) result e h = absurd (cc h)
  bounded (started (interrupted x)) result e h = absurd (cc h)
  bounded missing result e h = absurd (cc h)
  bounded (refused x) result e h = absurd (cc h)

  -- `run` returns a result only for a process that ended in time with exit code zero, and whose two
  -- outputs, which are the result, are within the limit.
  pub run-IsBounded :
      (result : SandboxResult)
      → (run c d name command p mounts stdin s).0 ≡ ok result
      → IsBounded result
  unfolding run
  run-IsBounded result h = bounded _ result refl h
