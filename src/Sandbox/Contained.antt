-- ===== src/Sandbox/Contained.antt =====
-- `_run_contained` and `_audit` of asphallea/sandbox.py, and what `run` takes and returns.
use asphallea.Prelude.{String, Bool, List, Option, [], false, none, some, true, ◌∷◌, ◌++◌}
use asphallea.Sandbox.Processes.{effects, exec, lift, Processes}
use asphallea.Sandbox.World.{Action, ◌>>=◌, ◌>>◌, made_folder, removed_folder, wrote_policy}
use asphallea.Audit.{AuditRecord, AuditSink}
use asphallea.Decision.{Decision, allow}
use asphallea.Prelude.Dict.{Dict}
use asphallea.Intercept.{Moment, or_rule}
use asphallea.Policy.{Policy}
use asphallea.Errors.{Result, ok, raise}
use asphallea.Runtime.{Runtime}
use asphallea.Value.{Value}
use asphallea.Policy.CoreJson.{core_json}
use asphallea.Prelude.Int.{ℤ}

-- `class SandboxResult`
pub record SandboxResult : Type 0 where
  pub returncode : ℤ
  pub stdout : String
  pub stderr : String
  pub contained : Bool
  pub degraded : Bool
  pub controls : Dict Value
  pub command : List String

-- The keywords of `run` that change what is done.
pub record Options : Type 0 where
  pub tool : String
  pub allow_degraded : Bool
  pub verify_integrity : Bool
  pub timeout : Option ℤ

abbrev text_values : List String → List Value
text_values [] = []
text_values (s ∷ rest) = Value.str s ∷ text_values rest

abbrev word_of : Bool → String
word_of true = "allow"
word_of false = "deny"

abbrev pub sandbox_record :
    String
    → Decision
    → List String
    → String
    → String
    → Option String
    → Option (Dict Value)
    → String
    → AuditRecord
sandbox_record tool d command policy tier rule detail timestamp = record {
  tool = tool;
  decision = word_of d.allowed;
  reason = d.reason;
  rule = or_rule rule d.rule;
  tier = tier;
  args = text_values command;
  kwargs = [];
  policy = some policy;
  timestamp = timestamp;
  detail = detail;
}

module _ {S : AuditSink} where
  -- `_audit`
  unfoldable pub audit_record : AuditRecord → Action S (Unit {0})
  audit_record r w = elim w.audit [
    | none ↦ (ok tt, w)
    | some sink ↦ elim (S.write r sink) [
      | raise x ↦ (raise x, w)
      | ok sink' ↦ (ok tt, record w { audit = some sink' })
    ]
  ]

  -- The records of `run` for one command.
  abbrev pub record_for :
      List String
      → Options
      → Moment
      → Policy
      → Decision
      → String
      → Option String
      → Option (Dict Value)
      → Action S (Unit {0})
  record_for command o now p d tier rule detail =
      audit_record (sandbox_record o.tool d command p.name tier rule detail now.timestamp)

  -- `with tempfile.TemporaryDirectory(...)`: the folder is removed whether the body returns or raises.
  unfoldable pub in_folder : {A : Type 0} → Action S A → Action S A
  in_folder body w =
      let (r, w') = (effects (made_folder ∷ []) >> body) w in
      (r, record w' { trace = w'.trace ++ removed_folder ∷ [] })

abbrev unavailable_report : Dict Value
unavailable_report = ("contained", Value.bool true) ∷ ("report", Value.str "unavailable") ∷ []

abbrev or_unavailable : Result (Dict Value) → Dict Value
or_unavailable (ok d) = d
or_unavailable (raise x) = unavailable_report

-- The command line of the core binary
abbrev pub contained_argv : Processes → List String → String → List String
contained_argv ps command binary =
    binary ∷ "--policy" ∷ ps.policy_path ∷ "--report" ∷ ps.report_path ∷ "--strict" ∷ "--" ∷ command

module _ {S : AuditSink} (rt : Runtime) (ps : Processes) (command : List String) (o : Options)
    (now : Moment) where
  -- The part of `_run_contained` behind the policy file.
  unfoldable pub run_core : Policy → String → Action S SandboxResult
  run_core p binary = do
    proc ← exec rt ps (contained_argv ps command binary) o.timeout
    record_for command o now p (allow "contained by OS enforcement") "containment" none
        (some (or_unavailable ps.report))
    lift (
        ok (record {
          returncode = proc.returncode;
          stdout = proc.stdout;
          stderr = proc.stderr;
          contained = true;
          degraded = false;
          controls = or_unavailable ps.report;
          command = command;
        }))

  -- `_run_contained`
  unfoldable pub run_contained : Policy → String → Action S SandboxResult
  unfolding in_folder run_core
  run_contained p binary = in_folder (do
    core ← lift (core_json rt p)
    effects (wrote_policy ps.policy_path core ∷ [])
    run_core p binary)
