-- ===== src/Guard.antt =====
-- asphallea/guard.py: the decorator around a function of Python. The function, what `inspect` says of its
-- signature, and whether it ends by a deadline are parameters of the model.
pub mod Reach
use asphallea.Prelude.{
  Bool, List, Option, String, [], arith, false, get_elem?, inl, inr, none, some, true, ℕ,
  if◌then◌else◌, ◌+◌, ◌<>◌, ◌≡◌, ◌∷◌,
}
use asphallea.Intercept.{record_decision, decide, Interceptor, Keywords, Moment, these_names}
use asphallea.Errors.{Result, ok, raise, Exception, Result-cases, policy_timeout, policy_violation}
use asphallea.Engine.Rules.{admitted}
use asphallea.Audit.{AuditSink}
use asphallea.Decision.{Decision, denied, deny}
use asphallea.Prelude.Dict.{Dict, insert}
use asphallea.Runtime.{Runtime, str_of}
use asphallea.Value.{Value}
use asphallea.Prelude.Int.{negsuc, pos, ℤ}

-- A function with its positional and named arguments. It may change its state, and may raise.
pub record Function : Type 1 where
  pub State : Type 0
  -- `inspect.signature(fn)`, `bind_partial` and `apply_defaults`: the names of the parameters and the
  -- arguments by name, unless they raise `TypeError` or `ValueError`; what `**kwargs` collects is a dict
  -- under the name of that parameter
  pub signature : List Value → Dict Value → Option (List String × Dict Value)
  pub call : List Value → Dict Value → State → Result Value × State
  -- what the worker thread has done when `join(timeout)` comes back; `none` if it is alive
  pub call_within : ℤ → List Value → Dict Value → State → Option (Result Value) × State

-- `Union[str, int]`
pub data Spec : Type 0 where
  by_name : String → Spec
  by_index : ℤ → Spec

-- `resolve` of `_bind_call`: an index outside the parameters names none.
unfoldable pub resolve : List String → List Spec → List String
resolve params [] = []
resolve params (by_name name ∷ specs) = name ∷ resolve params specs
resolve params (by_index (negsuc n) ∷ specs) = resolve params specs
resolve params (by_index (pos n) ∷ specs) =
    let rest = resolve params specs in
    elim (get_elem? params n) [ none ↦ rest | some name ↦ name ∷ rest ]

-- `f"arg{index}"` for each argument from the index on
unfoldable pub argument_names : Runtime → ℕ → List Value → List String
argument_names rt n [] = []
argument_names rt n (v ∷ vs) =
    ("arg" <> str_of rt (Value.int (pos n))) ∷ argument_names rt (n + 1) vs

unfoldable pub put_all : List String → List Value → Dict Value → Dict Value
put_all (name ∷ names) (v ∷ vs) d = put_all names vs (insert name v d)
put_all _ _ d = d

-- The parameters and the arguments of `_bind_call`, with names made up where there is no signature.
unfoldable pub bind_call : Runtime → Function → List Value → Dict Value → List String × Dict Value
unfolding argument_names put_all
bind_call rt fn args kwargs = elim (fn.signature args kwargs) [
  | some bound ↦ bound
  | none ↦ let names = argument_names rt 0 args in (names, put_all names args kwargs)
]

-- What `guard` was given.
pub record Guarded : Type 0 where
  pub tool : String
  pub read_spec : List Spec
  pub write_spec : List Spec
  pub network : Bool
  pub timeout : Option ℤ

-- `effective_timeout`
abbrev pub or_policy : Option ℤ → Option ℤ → Option ℤ
or_policy none limit = limit
or_policy (some t) limit = some t

module _ (S : AuditSink) (rt : Runtime) (fn : Function) (spec : Guarded) where
  abbrev pub arguments_of : List Value → Dict Value → Dict Value
  arguments_of args kwargs = (bind_call rt fn args kwargs).1

  abbrev pub keywords_of : List Value → Dict Value → Keywords
  keywords_of args kwargs =
      let params = (bind_call rt fn args kwargs).0 in
      record {
        reads = these_names (resolve params spec.read_spec);
        writes = these_names (resolve params spec.write_spec);
        network = spec.network;
      }

  -- `evaluate`
  abbrev pub evaluate :
      List Value → Dict Value → Moment → Interceptor S → Result Decision × Interceptor S
  evaluate args kwargs now gate =
      decide S rt spec.tool (some (arguments_of args kwargs)) (keywords_of args kwargs) now gate

  abbrev pub timeout_decision : ℤ → Decision
  timeout_decision t =
      deny "timeout" (
        "tool " <> rt.repr (Value.str spec.tool) <> " exceeded timeout of " <> rt.format_g t <> "s")

  -- `raise on_timeout(arguments)`
  unfoldable pub on_timeout : ℤ → Dict Value → Moment → Interceptor S → Result Value × Interceptor S
  on_timeout t arguments later gate =
      elim (record_decision S spec.tool (timeout_decision t) arguments later gate) [
        | raise x ↦ (raise x, gate)
        | ok gate' ↦ (raise (policy_timeout (timeout_decision t) spec.tool), gate')
      ]

  -- `_run_with_timeout`
  unfoldable pub run_with_timeout :
      ℤ
      → List Value
      → Dict Value
      → Moment
      → Interceptor S
      → fn.State
      → Result Value × Interceptor S × fn.State
  run_with_timeout t args kwargs later gate s =
      let (outcome, s') = fn.call_within t args kwargs s in
      elim outcome [
        | some result ↦ (result, gate, s')
        | none ↦
            let (r, gate') = on_timeout t (arguments_of args kwargs) later gate in (r, gate', s')
      ]

  -- What is left of `sync_wrapper` for a call that is not denied.
  unfoldable pub run_allowed :
      List Value
      → Dict Value
      → Moment
      → Interceptor S
      → fn.State
      → Result Value × Interceptor S × fn.State
  unfolding run_with_timeout
  run_allowed args kwargs later gate s = elim (or_policy spec.timeout gate.policy.timeout_seconds) [
    | none ↦ let (result, s') = fn.call args kwargs s in (result, gate, s')
    | some t ↦ run_with_timeout t args kwargs later gate s
  ]

  unfoldable pub proceed :
      Result Decision
      → List Value
      → Dict Value
      → Moment
      → Interceptor S
      → fn.State
      → Result Value × Interceptor S × fn.State
  unfolding run_allowed
  proceed (raise x) args kwargs later gate s = (raise x, gate, s)
  proceed (ok d) args kwargs later gate s =
      if denied d
      then (raise (policy_violation d spec.tool), gate, s)
      else run_allowed args kwargs later gate s

  -- `sync_wrapper` and `async_wrapper`, with the moments of the decision and of a timeout.
  unfoldable pub guarded :
      List Value
      → Dict Value
      → Moment
      → Moment
      → Interceptor S
      → fn.State
      → Result Value × Interceptor S × fn.State
  unfolding proceed
  guarded args kwargs now later gate s =
      let (r, gate') = evaluate args kwargs now gate in proceed r args kwargs later gate' s

module _ (S : AuditSink) (rt : Runtime) (fn : Function) (spec : Guarded) (args : List Value)
    (kwargs : Dict Value) (now later : Moment) (gate : Interceptor S) (s : fn.State) where
  abbrev verdict : Result Decision × Interceptor S
  verdict = evaluate S rt fn spec args kwargs now gate

  abbrev wrapped : Result Value × Interceptor S × fn.State
  wrapped = guarded S rt fn spec args kwargs now later gate s

  -- A call that the interceptor does not allow raises, and the function is not run.
  pub guarded_denied :
      admitted verdict.0 ≡ false
      → ((x : Exception) × (wrapped.0 ≡ raise x)) × (wrapped.1 ≡ verdict.1) × (wrapped.2 ≡ s)
  unfolding guarded proceed
  guarded_denied h = elim (Result-cases verdict.0) [
    | inr (x, raised) ↦ ((x, ground arith), ground arith, ground arith)
    | inl (d, answered) ↦ ((policy_violation d spec.tool, ground arith), ground arith, ground arith)
  ]
