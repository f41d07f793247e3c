-- ===== src/Mcp/Reach.antt =====
-- On the guarded `call_tool` of asphallea/integrations/mcp.py: the calls that reach the server.
use asphallea.Prelude.{Bool-cases, Option, String, inl, inr, some, ◌≡◌}
use asphallea.Mcp.{
  Guard, Server, call_guarded, call_guarded_denied, guard_decision, policy_tool_name,
}
use asphallea.Intercept.{Moment, no_keywords, or_no_arguments}
use asphallea.Intercept.Governed.{Governs, decide-Governs}
use asphallea.Engine.Rules.{admitted}
use asphallea.Audit.{AuditSink}
use asphallea.Runtime.{Runtime}
use asphallea.Value.{Value}
use asphallea.Prelude.Dict.{Dict}

-- If a guarded call changes the state of the server, the policy permits the tool under the name that it has
-- there, and every text of every argument that the policy declares for it lies within the read prefixes,
-- within the write prefixes or passes the host rules, as declared; for a list, each of its entries.
pub call_guarded-Governs :
    (S : AuditSink) (rt : Runtime) (server : Server) (name : String)
    (arguments : Option (Dict Value)) (now : Moment) (g : Guard S) (t : server.State)
    → g.gate.policy ≡ g.gate.engine.policy
    → ((call_guarded S rt server name arguments now g t).2 ≡ t → ⊥)
    → Governs rt g.gate.policy
        (policy_tool_name name g.namespace)
        (or_no_arguments arguments)
        no_keywords
call_guarded-Governs S rt server name arguments now g t own changed =
    elim (Bool-cases (admitted (guard_decision S rt server name arguments now g).0)) [
      | inl allowed ↦
          decide-Governs S rt (policy_tool_name name g.namespace) (some (or_no_arguments arguments))
            no_keywords now g.gate own allowed
      | inr refused ↦
          absurd (changed (call_guarded_denied S rt server name arguments now g t refused).1)
    ]
