-- ===== src/Sandbox/Processes.antt =====
-- `_exec` and `_kill_tree` of asphallea/sandbox.py, over what the host answers.
use asphallea.Prelude.{Bool, List, Option, String, [], none, some, if◌then◌else◌, ◌<>◌, ◌∷◌, ◌++◌}
use asphallea.Sandbox.World.{launched, ◌>>=◌, ◌>>◌, Action, Effect, killed_group, killed_process}
use asphallea.Audit.{AuditSink}
use asphallea.Prelude.Dict.{Dict}
use asphallea.Errors.{Exception, Result, ok, raise}
use asphallea.Runtime.{Runtime}
use asphallea.Value.{Value}
use asphallea.Prelude.Int.{pos, ℤ}

-- How a started process ends: by itself, or at the timeout, with what it wrote by then. Reading what it
-- writes may raise, by the end or after the kill, as where its output is no text.
pub data Outcome : Type 0 where
  finished : ℤ → String → String → Outcome
  overran : String → String → Outcome
  unread : Exception → Outcome
  unread_killed : Exception → Outcome

-- What the host does with processes and files that `run` leaves behind.
pub record Processes : Type 0 where
  -- `subprocess.Popen(argv, …)` and `communicate`, with the timeout; or what
  -- `Popen` raises, and then nothing was started
  pub popen : List String → Option ℤ → Result Outcome
  -- `os.name == "posix"`, and whether `os.killpg` succeeds
  pub posix : Bool
  pub killpg : Bool
  -- the paths in the temporary folder, and the report, as `json.load` reads it
  pub policy_path : String
  pub report_path : String
  pub report : Result (Dict Value)

-- `subprocess.CompletedProcess`
pub record Completed : Type 0 where
  pub returncode : ℤ
  pub stdout : String
  pub stderr : String

-- `_kill_tree`, as the signals that are sent
unfoldable pub kill_tree : Processes → List Effect
kill_tree ps =
    if ps.posix
    then (if ps.killpg then killed_group ∷ [] else killed_group ∷ killed_process ∷ [])
    else killed_process ∷ []

abbrev seconds : Runtime → Option ℤ → String
seconds rt none = ""
seconds rt (some t) = rt.format_g t

module _ {S : AuditSink} where
  abbrev pub effects : List Effect → Action S (Unit {0})
  effects es w = (ok tt, record w { trace = w.trace ++ es })

  abbrev pub lift : {A : Type 0} → Result A → Action S A
  lift r w = (r, w)

  -- What `_exec` makes of an outcome.
  unfoldable pub completed : Runtime → Processes → Option ℤ → Outcome → Action S Completed
  unfolding kill_tree
  completed rt ps timeout (finished code out err) w =
      (ok (record { returncode = code; stdout = out; stderr = err }), w)
  completed rt ps timeout (overran out err) w = (
    ok (record {
      returncode = pos 124;
      stdout = out;
      stderr = err <> "\nasphallea: killed after timeout of " <> seconds rt timeout <> "s\n";
    }),
    record w { trace = w.trace ++ kill_tree ps },
  )
  completed rt ps timeout (unread x) w = (raise x, w)
  completed rt ps timeout (unread_killed x) w =
      (raise x, record w { trace = w.trace ++ kill_tree ps })

  -- `_exec`. A command that cannot be started raises.
  unfoldable pub exec : Runtime → Processes → List String → Option ℤ → Action S Completed
  unfolding completed
  exec rt ps argv timeout = do
    outcome ← lift (ps.popen argv timeout)
    effects (launched argv ∷ [])
    completed rt ps timeout outcome
