-- ===== src/Examples/Demo.antt =====
-- examples/demo.py: the calls of a hijacked agent to a file server, straight and through the guard. The disk,
-- `os.path.join` and the sink of the trail are parameters.
pub mod BuildArena
pub mod Refusals
pub mod Blocked
pub mod Confined
use asphallea.Prelude.{
  ℕ, ◌+◌, String, ◌<>◌, Bool, true, false, List, [], ◌∷◌, ◌++◌, Option, none, some, ◌==◌,
  if◌then◌else◌,
}
use asphallea.Prelude.Dict.{Dict, lookup}
use asphallea.Runtime.{Runtime}
use asphallea.Value.{Value}
use asphallea.Errors.{
  Exception, Result, ok, raise, ◌>>=◌, ◌>>◌, value_error, error, policy_violation,
  containment_unavailable, policy_timeout,
}
use asphallea.Audit.{AuditSink}
use asphallea.Policy.{Policy, ToolArgs}
use asphallea.Policy.Builder.{Method, new_builder, chain, build}
use asphallea.Intercept.{Moment, or_no_arguments}
use asphallea.Mcp.{Server, Guard, of_policy, guard_mcp_session, call_guarded}

-- What the demo does with files; each may raise.
pub record Disk : Type 1 where
  pub State : Type 0
  -- `tempfile.mkdtemp(prefix=...)`
  pub mkdtemp : String → State → Result String × State
  -- `os.makedirs(path, exist_ok=True)`
  pub makedirs : String → State → Result (Unit {0}) × State
  -- `open(path, "w").write(text)`
  pub write_text : String → String → State → Result (Unit {0}) × State
  -- `open(path).read()`
  pub read_text : Value → State → Result String
  -- `os.remove(path)`
  pub remove : Value → State → Result (Unit {0}) × State

-- What `build_arena` returns.
pub record Arena : Type 0 where
  pub root : String
  pub workspace : String
  pub secret : String
  pub production : String

abbrev pub fake_secret : String
fake_secret = "sk-live-DEMO-EXFIL-TARGET-0123456789-do-not-use"

-- A tool, its arguments and what the agent wants with it.
abbrev pub Attempt : Type 0
Attempt = String × Dict Value × String

abbrev pub path_argument : String → Dict Value
path_argument path = ("path", Value.str path) ∷ []

-- `injected_calls`
abbrev pub injected_calls : Arena → List Attempt
injected_calls a =
    ("filesystem.read", path_argument a.secret, "exfiltrate the credentials")
    ∷ ("filesystem.delete", path_argument a.production, "destroy the database")
    ∷ []

abbrev pub reads_path : ToolArgs
reads_path = record { reads = "path" ∷ []; writes = []; network = [] }

abbrev pub writes_path : ToolArgs
writes_path = record { reads = []; writes = "path" ∷ []; network = [] }

-- The chain of `build_policy`
abbrev pub policy_methods : (String → String → String) → Arena → List Method
policy_methods join a =
    Method.declare "filesystem.read" reads_path true
    ∷ Method.declare "filesystem.delete" writes_path true
    ∷ Method.read_paths (a.workspace ∷ [])
    ∷ Method.write_paths (join a.workspace "out" ∷ [])
    ∷ Method.deny_network
    ∷ []

-- `build_policy`
unfoldable pub build_policy : Runtime → (String → String → String) → Arena → Result Policy
build_policy rt join a = do
  b ← chain rt (policy_methods join a) (new_builder "least-privilege-demo")
  build rt b

-- What a call came to: the tool, whether it was blocked, and by which rule.
abbrev pub Outcome : Type 0
Outcome = String × Bool × Option String

-- The `try` of `run_guarded`: `except PolicyViolation` takes its subclasses too.
unfoldable pub outcome_of : String → Result Value → Result Outcome
outcome_of name (ok v) = ok (name, false, none)
outcome_of name (raise (policy_violation d tool)) = ok (name, true, some d.rule)
outcome_of name (raise (policy_timeout d tool)) = ok (name, true, some d.rule)
outcome_of name (raise (containment_unavailable d tool)) = ok (name, true, some d.rule)
outcome_of name (raise x) = raise x

module _ (rt : Runtime) (disk : Disk) where
  -- `class FilesystemServer`, and the disk that its tools touch.
  pub record FilesystemServer : Type 0 where
    pub calls : List (String × Dict Value)
    pub files : disk.State

  -- `arguments["path"]`
  unfoldable pub path_of : Dict Value → Result Value
  path_of arguments = elim (lookup "path" arguments) [
    | none ↦ raise (error "'path'")
    | some v ↦ ok v
  ]

  -- The tool `filesystem.delete`
  unfoldable pub delete : Dict Value → FilesystemServer → Result Value × FilesystemServer
  unfolding path_of
  delete arguments s = elim (path_of arguments) [
    | raise x ↦ (raise x, s)
    | ok path ↦
        let (r, files) = disk.remove path s.files in
        ((do r; ok (Value.str "deleted")), record s { files = files })
  ]

  -- What a tool of the server does.
  unfoldable pub serve : String → Dict Value → FilesystemServer → Result Value × FilesystemServer
  unfolding path_of delete
  serve name arguments s =
      if name == "filesystem.read"
      then (
        (do path ← path_of arguments; text ← disk.read_text path s.files; ok (Value.str text)),
        s,
      )
      else if name == "filesystem.delete"
      then delete arguments s
      else (raise (value_error ("unknown tool " <> rt.repr (Value.str name))), s)

  -- `FilesystemServer.call_tool`
  unfoldable pub call_tool :
      String → Option (Dict Value) → FilesystemServer → Result Value × FilesystemServer
  unfolding serve
  call_tool name arguments s =
      serve name (or_no_arguments arguments)
        (record s { calls = s.calls ++ (name, or_no_arguments arguments) ∷ [] })

  abbrev pub file_server : Server
  file_server = record { State = FilesystemServer; call_tool = call_tool }

  -- `run_unguarded`, but for what it prints
  unfoldable pub run_unguarded :
      List Attempt → FilesystemServer → Result (Unit {0}) × FilesystemServer
  run_unguarded [] s = (ok tt, s)
  run_unguarded ((name, arguments, intent) ∷ rest) s =
      let (r, s') = call_tool name (some arguments) s in
      elim r [ raise x ↦ (raise x, s') | ok v ↦ run_unguarded rest s' ]

module _ (S : AuditSink) (rt : Runtime) (server : Server) where
  -- The loop of `run_guarded`, each call at its moment, behind the outcomes so far.
  unfoldable pub replay :
      List Attempt
      → (ℕ → Moment)
      → ℕ
      → List Outcome
      → Guard S
      → server.State
      → Result (List Outcome) × Guard S × server.State
  unfolding outcome_of
  replay [] now i outcomes g s = (ok outcomes, g, s)
  replay ((name, arguments, intent) ∷ rest) now i outcomes g s =
      let (r, g', s') = call_guarded S rt server name (some arguments) (now i) g s in
      elim (outcome_of name r) [
        | raise x ↦ (raise x, g', s')
        | ok outcome ↦ replay rest now (i + 1) (outcomes ++ outcome ∷ []) g' s'
      ]

  -- `run_guarded`, with the trail and the server that it leaves
  unfoldable pub run_guarded :
      (String → String → String)
      → Arena
      → (ℕ → Moment)
      → Option S.State
      → server.State
      → Result (List Outcome) × Option S.State × server.State
  unfolding replay build_policy
  run_guarded join a now audit s =
      elim (do
        p ← build_policy rt join a
        guard_mcp_session S rt (of_policy p) audit "raise" none) [
          | raise x ↦ (raise x, audit, s)
          | ok g ↦
              let (r, g', s') = replay (injected_calls a) now 0 [] g s in (r, g'.gate.audit, s')
        ]
