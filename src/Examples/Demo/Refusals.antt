-- ===== src/Examples/Demo/Refusals.antt =====
-- On the guarded calls of examples/demo.py: what a refusal leaves.
use asphallea.Prelude.{
  ℕ, ◌+◌, ◌≡◌, ◌↔◌, refl, inl, inr, String, true, false, List, [], ◌∷◌, ◌++◌, Option, none, some,
  arith, Bool-cases,
}
use asphallea.Prelude.Dict.{Dict}
use asphallea.Prelude.Int.{ℤ}
use asphallea.Runtime.{Runtime}
use asphallea.Value.{Value}
use asphallea.Errors.{ok, raise, policy_violation}
use asphallea.Audit.{AuditSink, AuditRecord}
use asphallea.Decision.{Decision}
use asphallea.Policy.Queries.{tool_allowed}
use asphallea.Engine.{
  Engine, Call, check, check_access, check_tool, check_reads, check_writes, first_refused,
  deny_read, deny_write, within_any, under_any,
}
use asphallea.Intercept.{
  Moment, decide, recorded, record_decision, write_to, call_of, no_keywords, record_of,
}
use asphallea.Mcp.{Server, Guard, call_guarded, forward, handle_denial, policy_tool_name}
use asphallea.Engine.Boundary.{PathLaws}
use asphallea.Policy.Builder.Boundary.{LiesWithin}
use asphallea.Examples.Demo.{Attempt, Outcome, outcome_of, replay}

module _ (rt : Runtime) (c : Call) (clock : ℤ) (e : Engine) where
  pub check-deny_read :
      (path : String)
      → tool_allowed e.policy c.tool ≡ true
      → c.reads ≡ path ∷ []
      → within_any rt e.policy.read_paths path ≡ ok false
      → check rt c clock e ≡ (ok (deny_read rt path), e)
  unfolding check check_access check_tool check_reads first_refused
  check-deny_read path permitted reads away = ground arith

  pub check-deny_write :
      (path : String)
      → tool_allowed e.policy c.tool ≡ true
      → c.reads ≡ []
      → c.writes ≡ path ∷ []
      → within_any rt e.policy.write_paths path ≡ ok false
      → check rt c clock e ≡ (ok (deny_write rt path), e)
  unfolding check check_access check_tool check_reads check_writes first_refused
  check-deny_write path permitted reads writes away = ground arith

-- A sink that takes every record.
abbrev pub Accepts : AuditSink → Type 0
Accepts S = (r : AuditRecord) (sink : S.State) → (sink' : S.State) × (S.write r sink ≡ ok sink')

module _ (S : AuditSink) (rt : Runtime) (server : Server) (accepts : Accepts S) where
  write_to-accepts :
      (r : AuditRecord) (audit : Option S.State)
      → (audit' : Option S.State) × (write_to S r audit ≡ ok audit')
  unfolding write_to
  write_to-accepts r none = (none, refl)
  write_to-accepts r (some sink) = let (sink', wrote) = accepts r sink in (some sink', ground arith)

  -- A denied call raises, and changes nothing but the trail.
  pub call_guarded_refused :
      (name : String) (arguments : Dict Value) (now : Moment) (g : Guard S) (s : server.State)
      {d : Decision}
      → g.on_deny ≡ "raise"
      → g.namespace ≡ none
      → check rt (call_of rt g.gate.policy name arguments no_keywords) now.clock g.gate.engine
        ≡ (ok d, g.gate.engine)
      → d.allowed ≡ false
      → (audit : Option S.State) × (call_guarded S rt server name (some arguments) now g s ≡ (
        raise (policy_violation d name),
        record g { gate = record g.gate { audit = audit } },
        s,
      ))
  unfolding call_guarded forward handle_denial policy_tool_name decide recorded record_decision
  call_guarded_refused name arguments now g s {d} raises whole answered refused =
      let (audit, wrote) =
        write_to-accepts (record_of S g.gate.policy name d arguments "policy" none none now)
          g.gate.audit in
      (audit, ground (arith, answered, wrote))

  -- The loop goes on behind a denied call.
  pub replay_blocked :
      (name intent : String) (arguments : Dict Value) (rest : List Attempt) (now : ℕ → Moment)
      (i : ℕ) (outcomes : List Outcome) (g g' : Guard S) (s : server.State) {d : Decision}
      → call_guarded S rt server name (some arguments) (now i) g s
        ≡ (raise (policy_violation d name), g', s)
      → replay S rt server ((name, arguments, intent) ∷ rest) now i outcomes g s
        ≡ replay S rt server rest now (i + 1) (outcomes ++ (name, true, some d.rule) ∷ []) g' s
  unfolding replay outcome_of
  replay_blocked name intent arguments rest now i outcomes g g' s blocked = ground arith

-- Outside all of the places, a path does not pass.
pub within_any_outside :
    (rt : Runtime) (laws : PathLaws rt) (prefixes places : List String) (path : String)
    {real : String}
    → (within_any rt prefixes path ≡ ok true) ↔ LiesWithin rt laws places path
    → rt.real_path path ≡ ok real
    → ¬ LiesWithin rt laws places path
    → within_any rt prefixes path ≡ ok false
unfolding within_any
within_any_outside rt laws prefixes places path {real} iff resolved outside =
    elim (Bool-cases (under_any rt (rt.normcase real) prefixes)) [
      | inl under ↦ absurd (outside (iff.0 (ground arith)))
      | inr away ↦ ground arith
    ]
