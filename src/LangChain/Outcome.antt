-- ===== src/LangChain/Outcome.antt =====
-- On the entry points of `GuardedTool` in asphallea/integrations/langchain.py: when the wrapped tool is run.
use asphallea.Prelude.{
  Bool-cases, Bool, In, In-append_left, In-append_right, List, String, arith, inl, inr, none, some,
  true, false, ◌≡◌, ◌∷◌, [],
}
use asphallea.LangChain.Calls.{
  overrun, noted, Shared, run_entry, decide_input, settle_call, delegate, check_of,
  call_with_timeout,
}
use asphallea.LangChain.{
  invoke, is_single, extract, Request, Tool, GuardedTool, payload_of, pick, extract_each, texts_if,
}
use asphallea.Engine.{check, within_any}
use asphallea.Intercept.{Moment, texts_of}
use asphallea.Engine.Rules.{admitted, access_verdicts, all_hold}
use asphallea.Audit.{AuditSink}
use asphallea.Guard.{Spec}
use asphallea.Decision.{Decision}
use asphallea.Errors.{Result, Result-cases, ok, policy_timeout, raise}
use asphallea.Runtime.{Runtime}
use asphallea.Value.{Value}
use asphallea.Engine.Run.{admitted-all_hold}
use asphallea.Intercept.Governed.{read_within, write_within}
use asphallea.Prelude.Dict.{Dict}
use asphallea.Prelude.Int.{ℤ}

-- Every text of a picked value is among those that are checked.
In-extract_each :
    (rt : Runtime) (payload : Value) (single : Bool) (names : List Spec) (name : Spec) (v : Value)
    (text : String)
    → In name names
    → pick payload single name ≡ some v
    → In text (texts_of rt v)
    → In text (extract_each rt payload single names)
unfolding extract_each
In-extract_each rt payload single [] name v text named picked member = absurd named
In-extract_each rt payload single (n ∷ names) name v text (inl e) picked member =
    rw (← e, picked, extract_each)
      (In-append_left text (texts_of rt v) (extract_each rt payload single names) member)
In-extract_each rt payload single (n ∷ names) name v text (inr h) picked member =
    In-append_right text (texts_if rt (pick payload single n))
      (extract_each rt payload single names)
      (In-extract_each rt payload single names name v text h picked member)

module _ (S : AuditSink) (rt : Runtime) (tool : Tool) (g : GuardedTool) (request : Request)
    (now : Moment) (s : Shared S) (state : tool.State) where
  abbrev pub answer : Result Decision × Shared S
  answer = decide_input S rt tool g (payload_of request) now s

  abbrev pub outcome : Result Value × Shared S × tool.State
  outcome = run_entry S rt tool g request now s state

  decide_input-access :
      admitted answer.0 ≡ true
      → all_hold (access_verdicts rt (check_of rt g (payload_of request)) s.engine.policy) ≡ true
  unfolding decide_input noted
  decide_input-access h = ground (
    arith,
    Result-cases (check rt (check_of rt g (payload_of request)) now.clock s.engine).0,
    admitted-all_hold rt (check_of rt g (payload_of request)) now.clock s.engine,
  )

  -- If `_decide` denies or raises, no entry point runs the wrapped tool, and the engine and the trail are
  -- as the decision left them.
  pub run_entry_denied : admitted answer.0 ≡ false → (outcome.1 ≡ answer.1) × (outcome.2 ≡ state)
  unfolding run_entry settle_call
  run_entry_denied h = ground (arith, Result-cases answer.0)

  -- If `_decide` allows, the entry point runs the wrapped tool once, with the arguments of the caller, and
  -- passes on its result or exception, if the guard has no timeout.
  run_entry_allowed :
      admitted answer.0 ≡ true
      → g.timeout ≡ none
      → outcome ≡ ((tool.perform request state).0, answer.1, (tool.perform request state).1)
  unfolding run_entry settle_call delegate
  run_entry_allowed h unlimited = ground (arith, Result-cases answer.0)

  -- An allowed `invoke` of a tool that has not ended by the timeout of the guard raises `PolicyTimeout` with
  -- a denial under the rule "timeout", and leaves engine and trail as the decision did.
  run_entry_overran :
      {t : ℤ} {late : tool.State} (v config : Value) (kwargs : Dict Value)
      → admitted answer.0 ≡ true
      → g.timeout ≡ some t
      → request ≡ invoke v config kwargs
      → tool.perform_within t request state ≡ (none, late)
      → outcome ≡ (raise (policy_timeout (overrun rt g t) g.name), answer.1, late)
  unfolding run_entry settle_call delegate call_with_timeout
  run_entry_overran v config kwargs allowed limit entry slow = ground (arith, Result-cases answer.0)

  -- The names that pick paths from the input, with the prefixes that the policy sets for them.
  abbrev pub path_rules : List (List Spec × List String)
  path_rules =
      (g.read_names, s.engine.policy.read_paths) ∷ (g.write_names, s.engine.policy.write_paths) ∷ []

  decide_input-within :
      (names : List Spec) (prefixes : List String) (name : Spec) (v : Value) (text : String)
      → admitted answer.0 ≡ true
      → In (names, prefixes) path_rules
      → In name names
      → pick (payload_of request) (is_single names) name ≡ some v
      → In text (texts_of rt v)
      → within_any rt prefixes text ≡ ok true
  unfolding check_of extract
  decide_input-within names prefixes name v text allowed rule named picked member =
      let payload = payload_of request in
      let c = check_of rt g payload in
      let found =
        In-extract_each rt payload (is_single names) names name v text named picked member in
      elim rule [
        | inl e ↦
            ground
              (arith, found, read_within rt c s.engine.policy (decide_input-access allowed) text)
        | inr (inl e) ↦
            ground
              (arith, found, write_within rt c s.engine.policy (decide_input-access allowed) text)
        | inr (inr none_left) ↦ absurd none_left
      ]

  -- If a call of an entry point changes the state of the wrapped tool, every text that a read name of the
  -- guard picks from the input lies within the read prefixes of the policy, and every text that a write name
  -- picks within the write prefixes; for a picked collection, each of its entries.
  pub run_entry-within :
      (names : List Spec) (prefixes : List String) (name : Spec) (v : Value) (text : String)
      → (outcome.2 ≡ state → ⊥)
      → In (names, prefixes) path_rules
      → In name names
      → pick (payload_of request) (is_single names) name ≡ some v
      → In text (texts_of rt v)
      → within_any rt prefixes text ≡ ok true
  run_entry-within names prefixes name v text changed rule named picked member =
      elim (Bool-cases (admitted answer.0)) [
        | inl allowed ↦
            decide_input-within names prefixes name v text allowed rule named picked member
        | inr refused ↦ absurd (changed (run_entry_denied refused).1)
      ]
