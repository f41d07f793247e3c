-- ===== src/LangChain.antt =====
-- asphallea/integrations/langchain.py: the stand-in for a tool of LangChain. The tool, and whether it ends
-- by a deadline, are parameters.
pub mod Calls
pub mod Outcome
pub mod Agrees
pub mod Session
use asphallea.Prelude.{
  Bool, List, Option, String, [], false, get_elem?, none, some, true, if◌then◌else◌, ◌==◌, ◌||◌,
  ◌∷◌, ◌++◌,
}
use asphallea.Errors.{Result, ok, raise, value_error, ◌>>=◌}
use asphallea.Runtime.{find, Runtime, str_of}
use asphallea.Guard.{Spec, by_name, by_index, or_policy}
use asphallea.Intercept.{texts_of}
use asphallea.Prelude.Dict.{Dict, get_or}
use asphallea.Value.{Fields, Items, Value, cons, end, field, items, nil}
use asphallea.Policy.{Policy}
use asphallea.Prelude.Int.{negsuc, pos, ℤ}

-- A call of an entry point of the tool, with its arguments: `invoke` and `ainvoke` with the input, the
-- configuration and keywords, `run` and `arun` with `tool_input`, more arguments and keywords, and a
-- direct call.
pub data Request : Type 0 where
  invoke ainvoke : Value → Value → Dict Value → Request
  run arun : Value → List Value → Dict Value → Request
  direct : List Value → Dict Value → Request

-- The wrapped tool: a request may change its state, and may raise.
pub record Tool : Type 1 where
  pub State : Type 0
  -- `getattr(tool, "name", "tool")`
  pub name : String
  pub perform : Request → State → Result Value × State
  -- what the worker thread has done when `join(timeout)` comes back; `none` if it is alive
  pub perform_within : ℤ → Request → State → Option (Result Value) × State

abbrev pub of_texts : Dict Value → Fields
of_texts [] = end
of_texts ((k, v) ∷ d) = field (Value.str k) v (of_texts d)

abbrev of_values : List Value → Items
of_values [] = nil
of_values (v ∷ vs) = cons v (of_values vs)

-- `tool_input if tool_input is not None else kwargs`
abbrev input_or : Value → Dict Value → Value
input_or Value.null kwargs = Value.dict (of_texts kwargs)
input_or v kwargs = v

-- `args[0] if len(args) == 1 and not kwargs else (kwargs or list(args))`
abbrev direct_payload : List Value → Dict Value → Value
direct_payload (v ∷ []) [] = v
direct_payload args [] = Value.list (of_values args)
direct_payload args kwargs = Value.dict (of_texts kwargs)

-- What the decision is made about.
unfoldable pub payload_of : Request → Value
payload_of (invoke v config kwargs) = v
payload_of (ainvoke v config kwargs) = v
payload_of (run v args kwargs) = input_or v kwargs
payload_of (arun v args kwargs) = input_or v kwargs
payload_of (direct args kwargs) = direct_payload args kwargs

-- `input_obj[i] if 0 <= i < len(input_obj) else None`
abbrev item_at : ℤ → List Value → Option Value
item_at (pos n) vs = get_elem? vs n
item_at (negsuc n) vs = none

-- The raw value that one name picks; a text is picked whole, if there is one name only.
unfoldable pub pick : Value → Bool → Spec → Option Value
unfolding find
pick (Value.dict fs) single (by_name name) = find name fs
pick (Value.dict fs) single (by_index i) = none
pick (Value.list vs) single (by_index i) = item_at i (items vs)
pick (Value.tuple vs) single (by_index i) = item_at i (items vs)
pick (Value.str s) single name = if single then some (Value.str s) else none
pick v single name = none

abbrev texts_if : Runtime → Option Value → List String
texts_if rt none = []
texts_if rt (some v) = texts_of rt v

unfoldable pub extract_each : Runtime → Value → Bool → List Spec → List String
extract_each rt v single [] = []
extract_each rt v single (name ∷ names) =
    texts_if rt (pick v single name) ++ extract_each rt v single names

abbrev is_single : List Spec → Bool
is_single (name ∷ []) = true
is_single names = false

-- `_extract`
unfoldable pub extract : Runtime → Value → List Spec → List String
unfolding extract_each pick
extract rt v names = extract_each rt v (is_single names) names

-- `_as_args`
unfoldable pub as_args : Value → List Value
as_args (Value.list vs) = items vs
as_args (Value.tuple vs) = items vs
as_args (Value.dict fs) = []
as_args v = v ∷ []

abbrev entries_by_text : Runtime → Fields → Dict Value
entries_by_text rt end = []
entries_by_text rt (field k v fs) = (str_of rt k, v) ∷ entries_by_text rt fs

-- `_as_kwargs`. A key that is no text is written as the audit record writes it.
unfoldable pub as_kwargs : Runtime → Value → Dict Value
as_kwargs rt (Value.dict fs) = entries_by_text rt fs
as_kwargs rt v = []

-- `class GuardedTool`, but for the tool, the engine and the sink.
pub record GuardedTool : Type 0 where
  pub name : String
  pub read_names : List Spec
  pub write_names : List Spec
  pub network : Bool
  pub timeout : Option ℤ
  pub on_deny : String

-- `_NameSpec`
pub data NameSpec : Type 0 where
  no_spec : NameSpec
  one_spec : Spec → NameSpec
  these_specs : List Spec → NameSpec

-- `_to_list`
unfoldable pub to_list : NameSpec → List Spec
to_list no_spec = []
to_list (one_spec name) = name ∷ []
to_list (these_specs names) = names

-- The settings of one tool in `specs` of `guard_tools`, and the keywords of `guard_tool`.
pub record Settings : Type 0 where
  pub reads : NameSpec
  pub writes : NameSpec
  pub network : Bool
  pub timeout : Option ℤ
  pub name : Option String

abbrev pub no_settings : Settings
no_settings = record {
  reads = no_spec;
  writes = no_spec;
  network = false;
  timeout = none;
  name = none;
}

-- `name or getattr(tool, "name", "tool")`
abbrev name_or : Option String → String → String
name_or none own = own
name_or (some name) own = if name == "" then own else name

-- `GuardedTool(…)`, over an engine with the policy
unfoldable pub guard_tool : Policy → String → Settings → String → Result GuardedTool
unfolding to_list
guard_tool p own settings on_deny =
    if (on_deny == "raise") || (on_deny == "return")
    then ok (record {
      name = name_or settings.name own;
      read_names = to_list settings.reads;
      write_names = to_list settings.writes;
      network = settings.network;
      timeout = or_policy settings.timeout p.timeout_seconds;
      on_deny = on_deny;
    })
    else raise (value_error "on_deny must be 'raise' or 'return'")

-- `guard_tools`, for the names of the tools
unfoldable pub guard_tools :
    Policy → Dict Settings → String → List String → Result (List GuardedTool)
unfolding guard_tool
guard_tools p specs on_deny [] = ok []
guard_tools p specs on_deny (own ∷ rest) = do
  g ← guard_tool p own (get_or own specs no_settings) on_deny
  gs ← guard_tools p specs on_deny rest
  ok (g ∷ gs)
