-- ===== src/LangChain/Agrees.antt =====
-- On `_decide` of asphallea/integrations/langchain.py and `Interceptor.decide` of asphallea/intercept.py.
use asphallea.Prelude.{Bool, List, String, [], arith, map, refl, ◌≡◌, ◌∷◌, none, some}
use asphallea.Engine.{check, Engine}
use asphallea.Intercept.{
  record_decision, recorded, decide, values_for, Keywords, Moment, as_tuple, call_of,
  interceptor_over, these_names, write_to,
}
use asphallea.LangChain.{is_single, extract, of_texts, extract_each, pick, GuardedTool, Tool}
use asphallea.LangChain.Calls.{noted, check_of, decide_input}
use asphallea.Guard.{by_name}
use asphallea.Prelude.Dict.{Dict, lookup}
use asphallea.Runtime.{Runtime, find}
use asphallea.Value.{Value}
use asphallea.Audit.{AuditSink}
use asphallea.Errors.{Result-cases}
use asphallea.Policy.Queries.{args_for, no_args}

find-of_texts : (name : String) (d : Dict Value) → find name (of_texts d) ≡ lookup name d
unfolding find lookup
find-of_texts name [] = refl
find-of_texts name ((k, v) ∷ d) = ground (arith, find-of_texts name d)

extract_each-values_for :
    (rt : Runtime) (d : Dict Value) (single : Bool) (names : List String)
    → extract_each rt (Value.dict (of_texts d)) single (map by_name names) ≡ values_for rt d names
unfolding extract_each pick values_for
extract_each-values_for rt d single [] = refl
extract_each-values_for rt d single (name ∷ names) =
    ground (arith, find-of_texts name d, extract_each-values_for rt d single names)

module _ (S : AuditSink) (rt : Runtime) (tool : Tool) (g : GuardedTool) (e : Engine)
    (reads writes : List String) (d : Dict Value) (now : Moment) where
  abbrev keywords : Keywords
  keywords = record { reads = these_names reads; writes = these_names writes; network = g.network }

  check_of-call_of :
      args_for e.policy g.name ≡ no_args
      → g.read_names ≡ map by_name reads
      → g.write_names ≡ map by_name writes
      → check_of rt g (Value.dict (of_texts d)) ≡ call_of rt e.policy g.name d keywords
  unfolding check_of call_of extract as_tuple values_for
  check_of-call_of undeclared r w = grind (
    arith,
    extract_each-values_for rt d (is_single g.read_names) reads,
    extract_each-values_for rt d (is_single g.write_names) writes,
  )

  -- For a tool of which the policy declares no arguments, and a dict of named arguments, the adapter with
  -- its read and write names decides as the interceptor does with the same names as keywords, and leaves
  -- the same engine, when neither has a sink.
  pub decide_input-decide :
      args_for e.policy g.name ≡ no_args
      → g.read_names ≡ map by_name reads
      → g.write_names ≡ map by_name writes
      → (let adapter =
            decide_input S rt tool g
              (Value.dict (of_texts d))
              now
              (record { engine = e; audit = none }) in
          let gate = decide S rt g.name (some d) keywords now (interceptor_over S e none) in
          (adapter.0 ≡ gate.0) × (adapter.1.engine ≡ gate.1.engine))
  unfolding decide_input noted decide recorded record_decision write_to
  decide_input-decide undeclared r w = ground (
    arith,
    check_of-call_of undeclared r w,
    Result-cases (check rt (call_of rt e.policy g.name d keywords) now.clock e).0,
  )
