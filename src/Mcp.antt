-- ===== src/Mcp.antt =====
-- asphallea/integrations/mcp.py: the guard around the `call_tool` of an MCP session or of a server. The
-- session is a parameter of the model.
pub mod Reach
use asphallea.Prelude.{
  Option, String, arith, false, none, some, str_dec, true, if◌then◌else◌, ◌==◌, ◌<>◌, ◌≡◌, ◌⊎◌,
  ◌||◌,
}
use asphallea.Value.{cons, Value, end, field, nil}
use asphallea.Intercept.{
  decide, Interceptor, Moment, no_keywords, or_no_arguments, interceptor_over, new_interceptor,
}
use asphallea.Engine.Rules.{admitted}
use asphallea.Errors.{Result, ok, raise, Result-cases, policy_violation, value_error}
use asphallea.Audit.{AuditSink}
use asphallea.Engine.{Engine}
use asphallea.Policy.{Policy}
use asphallea.Decision.{Decision, denied}
use asphallea.Prelude.Dict.{Dict}
use asphallea.Runtime.{Runtime}

-- The wrapped side of the protocol: a tool call may change its state, and may raise.
pub record Server : Type 1 where
  pub State : Type 0
  pub call_tool : String → Option (Dict Value) → State → Result Value × State

-- `denial_result`
unfoldable pub denial_result : Decision → String → Value
denial_result d tool = Value.dict (
    field (Value.str "isError") (Value.bool true) (
      field (Value.str "content")
        (Value.list (
          cons
            (Value.dict (
              field (Value.str "type") (Value.str "text") (
                field (Value.str "text")
                  (Value.str (
                    "[asphallea] denied " <> tool <> ": " <> d.reason <> " (rule=" <> d.rule
                    <> ")"))
                  end)))
            nil))
        end))

-- `_policy_tool_name`. An empty namespace is none.
unfoldable pub policy_tool_name : String → Option String → String
policy_tool_name name none = name
policy_tool_name name (some namespace) = if namespace == "" then name else namespace <> "." <> name

-- `_handle_denial`
unfoldable pub handle_denial : String → Decision → String → Result Value
unfolding denial_result
handle_denial on_deny d tool =
    if on_deny == "raise" then raise (policy_violation d tool) else ok (denial_result d tool)

module _ (S : AuditSink) where
  -- `class GuardedSession`, but for the session; the closure of `guard_call_tool` holds the same.
  pub record Guard : Type 0 where
    pub gate : Interceptor S
    pub on_deny : String
    pub namespace : Option String

  -- The check of `on_deny` with which `guard_call_tool` and `GuardedSession` begin.
  unfoldable pub new_guard : Runtime → Interceptor S → String → Option String → Result (Guard)
  new_guard rt gate on_deny namespace =
      if (on_deny == "raise") || (on_deny == "error")
      then ok (record { gate = gate; on_deny = on_deny; namespace = namespace })
      else raise (
          value_error
            ("on_deny must be one of ('raise', 'error'), got " <> rt.repr (Value.str on_deny)))

  -- `Union[Policy, Engine, Interceptor]`
  pub data Governor : Type 0 where
    of_policy : Policy → Governor
    of_engine : Engine → Governor
    of_interceptor : Interceptor S → Governor

  -- `_as_interceptor`: an interceptor keeps the sink that it has.
  unfoldable pub as_interceptor : Governor → Option S.State → Interceptor S
  as_interceptor (of_policy p) audit = new_interceptor S p audit
  as_interceptor (of_engine e) audit = interceptor_over S e audit
  as_interceptor (of_interceptor gate) audit = gate

  -- `guard_mcp_session`, but for the session
  unfoldable pub guard_mcp_session :
      Runtime → Governor → Option S.State → String → Option String → Result (Guard)
  unfolding new_guard as_interceptor
  guard_mcp_session rt governor audit on_deny namespace =
      new_guard rt (as_interceptor governor audit) on_deny namespace

  module _ (rt : Runtime) (server : Server) where
    -- What the wrapper asks the interceptor.
    abbrev pub guard_decision :
        String → Option (Dict Value) → Moment → Guard → Result Decision × Interceptor S
    guard_decision name arguments now g =
        decide S rt (policy_tool_name name g.namespace) (some (or_no_arguments arguments))
          no_keywords now g.gate

    -- What is left of a guarded call when the interceptor has answered.
    unfoldable pub forward :
        String
        → Option (Dict Value)
        → Result Decision
        → Guard
        → server.State
        → Result Value × Guard × server.State
    unfolding handle_denial
    forward name arguments (raise x) g t = (raise x, g, t)
    forward name arguments (ok d) g t =
        if denied d
        then (handle_denial g.on_deny d name, g, t)
        else (let (result, t') = server.call_tool name arguments t in (result, g, t'))

    -- `sync_wrapper` and `async_wrapper` of `guard_call_tool`, and `GuardedSession.call_tool`
    unfoldable pub call_guarded :
        String
        → Option (Dict Value)
        → Moment
        → Guard
        → server.State
        → Result Value × Guard × server.State
    unfolding policy_tool_name
    call_guarded name arguments now g t =
        let (r, gate) = guard_decision name arguments now g in
        forward name arguments r (record g { gate = gate }) t

module _ (S : AuditSink) (rt : Runtime) (server : Server) (name : String)
    (arguments : Option (Dict Value)) (now : Moment) (g : Guard S) (t : server.State) where
  abbrev answer : Result Decision × Interceptor S
  answer = guard_decision S rt server name arguments now g

  abbrev outcome : Result Value × Guard S × server.State
  outcome = call_guarded S rt server name arguments now g t

  -- A call that the interceptor does not allow, because it denies or raises, never reaches the server:
  -- its state is as it was, and the interceptor is as the decision left it.
  pub call_guarded_denied :
      admitted answer.0 ≡ false → (outcome.1 ≡ record g { gate = answer.1 }) × (outcome.2 ≡ t)
  unfolding call_guarded forward
  call_guarded_denied h = ground (arith, Result-cases answer.0)

  -- A call that the interceptor allows reaches the server once, under the server's own name for the tool
  -- and with the arguments as the caller gave them, and its result or exception is passed on.
  pub call_guarded_allowed :
      admitted answer.0 ≡ true
      → outcome ≡ (
        (server.call_tool name arguments t).0,
        record g { gate = answer.1 },
        (server.call_tool name arguments t).1,
      )
  unfolding call_guarded forward
  call_guarded_allowed h = ground (arith, Result-cases answer.0)

  -- A guard whose `on_deny` the constructor accepts raises `PolicyViolation` for a denial if that is
  -- "raise", and else returns an error result with the decision's reason and rule.
  call_guarded-on_deny :
      (gate : Interceptor S) (namespace : Option String) {made : Guard S} {d : Decision}
      → new_guard S rt gate g.on_deny namespace ≡ ok made
      → answer.0 ≡ ok d
      → d.allowed ≡ false
      → ((g.on_deny ≡ "raise") × (outcome.0 ≡ raise (policy_violation d name)))
        ⊎ (g.on_deny ≡ "error") × (outcome.0 ≡ ok (denial_result d name))
  unfolding call_guarded forward new_guard handle_denial str_dec
  call_guarded-on_deny gate namespace made answered refused = ground arith
