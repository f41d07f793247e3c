-- ===== src/LangChain/Calls.antt =====
-- asphallea/integrations/langchain.py: the entry points of `GuardedTool`, and `_decide`, `_deny` and
-- `_call_with_timeout` below them.
use asphallea.Prelude.{Option, String, [], none, some, if◌then◌else◌, ◌==◌, ◌<>◌}
use asphallea.Intercept.{Moment, write_to, decision_word}
use asphallea.Audit.{AuditRecord, AuditSink}
use asphallea.Engine.{Engine, Call, check}
use asphallea.Decision.{Decision, denied, deny}
use asphallea.Errors.{Result, ok, raise, policy_timeout, policy_violation}
use asphallea.Runtime.{Runtime}
use asphallea.LangChain.{
  GuardedTool, Request, Tool, as_args, as_kwargs, extract, payload_of, invoke,
}
use asphallea.Policy.{Policy}
use asphallea.Prelude.Int.{ℤ}
use asphallea.Value.{Value}

-- The check that `_decide` asks of the engine.
unfoldable pub check_of : Runtime → GuardedTool → Value → Call
check_of rt g payload = record {
  tool = g.name;
  reads = extract rt payload g.read_names;
  writes = extract rt payload g.write_names;
  network_targets = [];
  network = g.network;
}

-- The record that `_decide` writes.
unfoldable pub entry_of : Runtime → GuardedTool → Policy → Decision → Value → String → AuditRecord
entry_of rt g p d payload timestamp = record {
  tool = g.name;
  decision = decision_word d.allowed;
  reason = d.reason;
  rule = d.rule;
  tier = "policy";
  args = as_args payload;
  kwargs = as_kwargs rt payload;
  policy = some p.name;
  timestamp = timestamp;
  detail = none;
}

-- `_deny`
unfoldable pub deny_call : GuardedTool → Decision → Result Value
deny_call g d =
    if g.on_deny == "return"
    then ok (
        Value.str
          ("[asphallea denied " <> g.name <> "] " <> d.reason <> " (rule=" <> d.rule <> ")"))
    else raise (policy_violation d g.name)

-- The decision of `_call_with_timeout` for a tool that is still running.
abbrev pub overrun : Runtime → GuardedTool → ℤ → Decision
overrun rt g t =
    deny "timeout"
      ("tool " <> rt.repr (Value.str g.name) <> " exceeded timeout of " <> rt.format_g t <> "s")

module _ (S : AuditSink) where
  -- What the tools of one `guard_tools` share.
  pub record Shared : Type 0 where
    pub engine : Engine
    pub audit : Option S.State

  module _ (rt : Runtime) (tool : Tool) (g : GuardedTool) where
    -- What is left of `_decide` when the engine has answered.
    unfoldable pub noted :
        Policy → Value → String → Result Decision → Shared → Result Decision × Shared
    noted p payload timestamp (raise x) s = (raise x, s)
    noted p payload timestamp (ok d) s =
        elim (write_to S (entry_of rt g p d payload timestamp) s.audit) [
          | raise x ↦ (raise x, s)
          | ok audit ↦ (ok d, record s { audit = audit })
        ]

    -- `_decide`
    unfoldable pub decide_input : Value → Moment → Shared → Result Decision × Shared
    unfolding check_of noted
    decide_input payload now s =
        let (r, e) = check rt (check_of rt g payload) now.clock s.engine in
        noted s.engine.policy payload now.timestamp r (record s { engine = e })

    -- `_call_with_timeout`. Nothing is recorded when the tool overruns.
    unfoldable pub call_with_timeout : ℤ → Request → tool.State → Result Value × tool.State
    call_with_timeout t request state =
        let (outcome, late) = tool.perform_within t request state in
        elim outcome [
          | some result ↦ (result, late)
          | none ↦ (raise (policy_timeout (overrun rt g t) g.name), late)
        ]

    -- The call of the wrapped tool: only `invoke` is held to the timeout.
    unfoldable pub delegate : Request → tool.State → Result Value × tool.State
    unfolding call_with_timeout
    delegate (invoke v config kwargs) state = elim g.timeout [
      | none ↦ tool.perform (invoke v config kwargs) state
      | some t ↦ call_with_timeout t (invoke v config kwargs) state
    ]
    delegate request state = tool.perform request state

    -- What is left of an entry point when `_decide` has answered.
    unfoldable pub settle_call :
        Result Decision → Request → Shared → tool.State → Result Value × Shared × tool.State
    unfolding deny_call delegate
    settle_call (raise x) request s state = (raise x, s, state)
    settle_call (ok d) request s state =
        if denied d
        then (deny_call g d, s, state)
        else (let (result, after) = delegate request state in (result, s, after))

    -- `invoke`, `ainvoke`, `run`, `arun` and `__call__`
    unfoldable pub run_entry :
        Request → Moment → Shared → tool.State → Result Value × Shared × tool.State
    unfolding payload_of decide_input settle_call
    run_entry request now s state =
        let (r, s') = decide_input (payload_of request) now s in settle_call r request s' state
