-- ===== src/Sandbox/Run.antt =====
-- `run` of asphallea/sandbox.py.
use asphallea.Prelude.{
  Bool, List, Option, String, [], false, is_empty, none, not, some, true, if◌then◌else◌, ◌==◌, ◌<>◌,
  ◌&&◌, ◌||◌, ◌∷◌,
}
use asphallea.Intercept.{Moment}
use asphallea.Sandbox.Processes.{exec, lift, effects, Processes}
use asphallea.Sandbox.World.{printed, warned, ◌>>=◌, ◌>>◌, Action}
use asphallea.Sandbox.Capabilities.{
  explain, covers, Capabilities, can_contain, caps_dict, dimensions, shortfall,
}
use asphallea.Engine.{check, Engine, new_engine, Call}
use asphallea.Audit.{AuditSink}
use asphallea.Decision.{Decision, allow, denied, deny}
use asphallea.Prelude.Dict.{Dict}
use asphallea.Sandbox.Probe.{Host, capabilities}
use asphallea.Integrity.{IntegrityResult}
use asphallea.Policy.{Policy}
use asphallea.Errors.{
  Result, containment_unavailable, integrity_error, ok, policy_violation, raise, type_error,
  value_error,
}
use asphallea.Runtime.{Runtime}
use asphallea.Value.{Value, end, field}
use asphallea.Prelude.Int.{ℤ}
use asphallea.Sandbox.Contained.{Options, SandboxResult, record_for, run_contained}

-- The engine that `run` uses.
unfoldable pub engine_of : Option Policy → Option Engine → Result Engine
engine_of p (some e) = ok e
engine_of none none = raise (value_error "run() requires either policy or engine")
engine_of (some p) none = ok (new_engine p)

-- What `run` asks the engine: no paths and no targets.
abbrev pub sandbox_call : String → Call
sandbox_call tool = record {
  tool = tool;
  reads = [];
  writes = [];
  network_targets = [];
  network = false;
}

module _ {S : AuditSink} where
  -- `engine.check(tool, network=False)`
  unfoldable pub check_sandbox : Runtime → String → ℤ → Action S Decision
  check_sandbox rt tool clock w =
      let (r, e) = check rt (sandbox_call tool) clock w.engine in (r, record w { engine = e })

abbrev capabilities_detail : Capabilities → Dict Value
capabilities_detail caps = ("capabilities", Value.dict (caps_dict caps)) ∷ []

abbrev integrity_detail : IntegrityResult → Dict Value
integrity_detail r =
    (
      "integrity",
      Value.dict (
          field (Value.str "method") (Value.str r.method)
            (field (Value.str "sha256") (Value.str r.sha256) end)),
    )
    ∷ []

-- `requires_fs` and `requires_net` of `run`
abbrev pub requires_fs : Policy → Bool
requires_fs p = not (is_empty p.read_paths) || not (is_empty p.write_paths)

abbrev pub requires_net : Policy → Bool
requires_net p = p.network == "deny"

-- Why the host cannot contain the command.
unfoldable pub refusal_reason : Runtime → Capabilities → Policy → String
refusal_reason rt caps p =
    if can_contain caps
    then caps.backend
      <> " on "
      <> caps.platform
      <> " enforces "
      <> dimensions caps
      <> ", but this policy also requires "
      <> shortfall caps (requires_fs p) (requires_net p)
      <> ", which this backend cannot deliver yet. Failing closed rather than run partially contained."
    else explain caps

module _ {S : AuditSink} (rt : Runtime) (host : Host) (ps : Processes)
    (verify : String → IntegrityResult) (command : List String) (o : Options) (now : Moment) where
  abbrev pub record_with :
      Policy → Decision → String → Option String → Option (Dict Value) → Action S (Unit {0})
  record_with = record_for command o now

  -- The branch of `run` for a host that cannot deliver what the policy requires.
  unfoldable pub refuse_or_degrade : Policy → Capabilities → Action S SandboxResult
  refuse_or_degrade p caps =
      let reason = refusal_reason rt caps p in
      let deny_it = deny "containment_unavailable" reason in
      let message =
        "ASPHALLEA DEGRADED MODE: running "
        <> rt.repr (Value.str o.tool)
        <> " without full OS containment. "
        <> reason in
      if not o.allow_degraded
      then (do
        record_with p deny_it "containment" none (some (capabilities_detail caps))
        lift (raise (containment_unavailable deny_it o.tool)))
      else (do
        effects (warned message ∷ printed message ∷ [])
        record_with p (allow "ran without full OS containment (allow_degraded)") "containment"
            (some "degraded") (some (capabilities_detail caps))
        proc ← exec rt ps command o.timeout
        lift (
            ok (record {
              returncode = proc.returncode;
              stdout = proc.stdout;
              stderr = proc.stderr;
              contained = false;
              degraded = true;
              controls = ("contained", Value.bool false) ∷ ("reason", Value.str reason) ∷ [];
              command = command;
            })))

  -- The tamper check, and the contained run behind it.
  unfoldable pub verify_and_run : Policy → String → Action S SandboxResult
  verify_and_run p binary =
      let result = verify binary in
      if o.verify_integrity && not result.is_ok
      then (do
        record_with p (deny "integrity" result.reason) "containment" none
            (some (integrity_detail result))
        lift (raise (integrity_error result.reason)))
      else run_contained rt ps command o now p binary

  -- A host that covers a policy has a core binary; the core cannot be started without its path.
  unfoldable pub run_found : Policy → Option String → Action S SandboxResult
  run_found p none =
      lift (raise (type_error "expected str, bytes or os.PathLike object, not NoneType"))
  run_found p (some binary) = verify_and_run p binary

  -- What `run` does once it knows the capabilities
  unfoldable pub run_with : Policy → Capabilities → Action S SandboxResult
  run_with p caps =
      if not (covers caps (requires_fs p) (requires_net p))
      then refuse_or_degrade p caps
      else run_found p caps.core_binary

  -- What `run` does once the policy tier has decided.
  unfoldable pub after_check : Policy → Decision → Action S SandboxResult
  after_check p d =
      if denied d
      then lift (raise (policy_violation d o.tool))
      else (do caps ← capabilities rt host false; run_with p caps)

  -- `run`, from the check of the policy tier on
  unfoldable pub run : Action S SandboxResult
  run w =
      let p = w.engine.policy in
      (do
        d ← check_sandbox rt o.tool now.clock
        record_with p d "policy" none none
        after_check p d)
        w
