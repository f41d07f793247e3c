-- ===== src/Intercept.antt =====
-- asphallea/intercept.py: the interceptor, the one place where a tool call is decided and recorded.
pub mod Record
pub mod Governed
pub mod Placed
use asphallea.Prelude.{
  Bool, List, Option, String, [], false, map, none, some, true, if◌then◌else◌, ◌∷◌, ◌++◌,
}
use asphallea.Audit.{AuditRecord, AuditSink}
use asphallea.Engine.{Engine, Call, check, new_engine}
use asphallea.Policy.Queries.{args_for}
use asphallea.Decision.{Decision, denied}
use asphallea.Prelude.Dict.{Dict, lookup}
use asphallea.Policy.{Policy, declared}
use asphallea.Errors.{Result, ok, policy_violation, raise, ◌>>=◌}
use asphallea.Runtime.{Runtime, str_of}
use asphallea.Value.{Value, items}
use asphallea.Prelude.Int.{ℤ}

-- What the clocks say when a call is decided.
pub record Moment : Type 0 where
  pub clock : ℤ
  pub timestamp : String

-- `Union[str, Iterable[str], None]`
pub data Names : Type 0 where
  no_names : Names
  one_name : String → Names
  these_names : List String → Names

-- `_as_tuple`
unfoldable pub as_tuple : Names → List String
as_tuple no_names = []
as_tuple (one_name name) = name ∷ []
as_tuple (these_names names) = names

-- The texts that one argument contributes: each entry of a collection.
unfoldable pub texts_of : Runtime → Value → List String
texts_of rt Value.null = []
texts_of rt (Value.list vs) = map (str_of rt) (items vs)
texts_of rt (Value.tuple vs) = map (str_of rt) (items vs)
texts_of rt (Value.set vs) = map (str_of rt) (items vs)
texts_of rt v = str_of rt v ∷ []

-- `_values_for`
unfoldable pub values_for : Runtime → Dict Value → List String → List String
values_for rt arguments [] = []
values_for rt arguments (name ∷ names) =
    let rest = values_for rt arguments names in
    elim (lookup name arguments) [ none ↦ rest | some value ↦ texts_of rt value ++ rest ]

-- The keywords of `decide`.
pub record Keywords : Type 0 where
  pub reads : Names
  pub writes : Names
  pub network : Bool

abbrev pub no_keywords : Keywords
no_keywords = record { reads = no_names; writes = no_names; network = false }

-- `arguments or {}`
abbrev pub or_no_arguments : Option (Dict Value) → Dict Value
or_no_arguments none = []
or_no_arguments (some arguments) = arguments

-- The check that `decide` asks of the engine.
unfoldable pub call_of : Runtime → Policy → String → Dict Value → Keywords → Call
unfolding values_for as_tuple texts_of
call_of rt p tool arguments kw =
    let declared = args_for p tool in
    record {
      tool = tool;
      reads = values_for rt arguments (declared.reads ++ as_tuple kw.reads);
      writes = values_for rt arguments (declared.writes ++ as_tuple kw.writes);
      network_targets = values_for rt arguments declared.network;
      network = kw.network;
    }

abbrev pub decision_word : Bool → String
decision_word true = "allow"
decision_word false = "deny"

abbrev pub or_rule : Option String → String → String
or_rule none rule = rule
or_rule (some rule) _ = rule

module _ (S : AuditSink) where
  -- `class Interceptor`
  pub record Interceptor : Type 0 where
    pub engine : Engine
    pub policy : Policy
    pub audit : Option S.State

  -- `Interceptor(engine, audit=audit)`
  abbrev pub interceptor_over : Engine → Option S.State → Interceptor
  interceptor_over e audit = record { engine = e; policy = e.policy; audit = audit }

  -- `Interceptor(policy, audit=audit)`
  abbrev pub new_interceptor : Policy → Option S.State → Interceptor
  new_interceptor p audit = interceptor_over (new_engine p) audit

  -- The record that `Interceptor.record` writes, with its keywords.
  unfoldable pub record_of :
      Policy
      → String
      → Decision
      → Dict Value
      → String
      → Option String
      → Option (Dict Value)
      → Moment
      → AuditRecord
  record_of p tool d arguments tier rule detail now = record {
    tool = tool;
    decision = decision_word d.allowed;
    reason = d.reason;
    rule = or_rule rule d.rule;
    tier = tier;
    args = [];
    kwargs = arguments;
    policy = some p.name;
    timestamp = now.timestamp;
    detail = detail;
  }

  -- Writes to the sink, if there is one.
  unfoldable pub write_to : AuditRecord → Option S.State → Result (Option S.State)
  write_to r none = ok none
  write_to r (some sink) = do sink' ← S.write r sink; ok (some sink')

  -- `Interceptor.record` with its default keywords
  unfoldable pub record_decision :
      String → Decision → Dict Value → Moment → Interceptor → Result Interceptor
  unfolding record_of write_to
  record_decision tool d arguments now gate = do
    audit ← write_to (record_of gate.policy tool d arguments "policy" none none now) gate.audit
    ok (record gate { audit = audit })

  -- What is left of `decide` when the engine has answered.
  unfoldable pub recorded :
      String → Dict Value → Moment → Result Decision → Interceptor → Result Decision × Interceptor
  recorded tool arguments now (raise x) gate = (raise x, gate)
  recorded tool arguments now (ok d) gate = elim (record_decision tool d arguments now gate) [
    | raise x ↦ (raise x, gate)
    | ok gate' ↦ (ok d, gate')
  ]

  module _ (rt : Runtime) where
    -- `Interceptor.decide`
    unfoldable pub decide :
        String
        → Option (Dict Value)
        → Keywords
        → Moment
        → Interceptor
        → Result Decision × Interceptor
    decide tool arguments kw now gate =
        let args = or_no_arguments arguments in
        let (r, engine) = check rt (call_of rt gate.policy tool args kw) now.clock gate.engine in
        recorded tool args now r (record gate { engine = engine })

    -- `if decision.denied: raise PolicyViolation(decision, tool)`
    unfoldable pub raise_if_denied : String → Result Decision → Result Decision
    raise_if_denied tool r = do d ← r; (if denied d then raise (policy_violation d tool) else ok d)

    -- `Interceptor.enforce`
    unfoldable pub enforce :
        String
        → Option (Dict Value)
        → Keywords
        → Moment
        → Interceptor
        → Result Decision × Interceptor
    unfolding raise_if_denied
    enforce tool arguments kw now gate =
        let (r, gate') = decide tool arguments kw now gate in (raise_if_denied tool r, gate')

    -- `Interceptor.allowed`
    unfoldable pub allowed :
        String → Option (Dict Value) → Keywords → Moment → Interceptor → Result Bool × Interceptor
    allowed tool arguments kw now gate =
        let (r, gate') = decide tool arguments kw now gate in ((do d ← r; ok d.allowed), gate')
