-- ===== src/Audit/Json.antt =====
-- `_json_safe` and `AuditRecord.to_dict` of asphallea/audit.py.
pub mod Safe
use asphallea.Prelude.{
  ℕ, zero, suc, String, ◌<>◌, Bool, false, List, [], ◌∷◌, Option, none, some, leb, ◌==◌,
  if◌then◌else◌,
}
use asphallea.Prelude.Dict.{Dict}
use asphallea.Runtime.{Runtime, str_of}
use asphallea.Value.{Value, Items, nil, cons, Fields, end, field}
use asphallea.Audit.{AuditRecord}

-- `len(s)` of a text
unfoldable pub text_length : String → ℕ
text_length String.[] = 0
text_length (String.◌∷◌ c s) = suc (text_length s)

-- `s[:n]`
unfoldable pub text_take : ℕ → String → String
text_take zero s = String.[]
text_take (suc n) String.[] = String.[]
text_take (suc n) (String.◌∷◌ c s) = String.◌∷◌ c (text_take n s)

abbrev pub max_value_length : ℕ
max_value_length = 512

-- `s if len(s) <= _MAX_VALUE_LENGTH else s[:_MAX_VALUE_LENGTH] + "...[truncated]"`
unfoldable pub bounded : String → String
unfolding text_length text_take
bounded s =
    if leb (text_length s) max_value_length
    then s
    else text_take max_value_length s <> "...[truncated]"

abbrev is_text : Value → String → Bool
is_text (Value.str j) k = j == k
is_text _ k = false

-- `d[k] = v` in a dict all of whose keys are texts
unfoldable pub set_field : String → Value → Fields → Fields
set_field k v end = field (Value.str k) v end
set_field k v (field j w fs) =
    let rest = set_field k v fs in if is_text j k then field j v fs else field j w rest

-- `_json_safe`. A dict comprehension stores its entries in order, and a later one wins.
unfoldable mutual
  unfolding bounded set_field

  pub json_safe : Runtime → Value → Value
  json_safe rt Value.null = Value.null
  json_safe rt (Value.bool b) = Value.bool b
  json_safe rt (Value.int n) = Value.int n
  json_safe rt (Value.float x) = Value.float x
  json_safe rt (Value.str s) = Value.str (bounded s)
  json_safe rt (Value.dict fs) = Value.dict (json_safe_fields rt fs end)
  json_safe rt (Value.list vs) = Value.list (json_safe_items rt vs)
  json_safe rt (Value.tuple vs) = Value.list (json_safe_items rt vs)
  json_safe rt (Value.set vs) = Value.str (bounded (rt.repr (Value.set vs)))
  json_safe rt (Value.object n) = Value.str (bounded (rt.repr (Value.object n)))

  pub json_safe_items : Runtime → Items → Items
  json_safe_items rt nil = nil
  json_safe_items rt (cons v vs) = cons (json_safe rt v) (json_safe_items rt vs)

  pub json_safe_fields : Runtime → Fields → Fields → Fields
  json_safe_fields rt end done = done
  json_safe_fields rt (field k v fs) done =
      json_safe_fields rt fs (set_field (str_of rt k) (json_safe rt v) done)

abbrev pub of_list : List Value → Items
of_list [] = nil
of_list (v ∷ vs) = cons v (of_list vs)

-- A `Dict` is a dict of Python with text keys.
abbrev pub of_dict : Dict Value → Fields
of_dict [] = end
of_dict ((k, v) ∷ d) = field (Value.str k) v (of_dict d)

abbrev optional_text : Option String → Value
optional_text none = Value.null
optional_text (some s) = Value.str s

abbrev detail_entry : Runtime → Option (Dict Value) → Dict Value
detail_entry rt none = []
detail_entry rt (some d) = ("detail", json_safe rt (Value.dict (of_dict d))) ∷ []

-- `AuditRecord.to_dict`
unfoldable pub to_dict : Runtime → AuditRecord → Dict Value
unfolding json_safe
to_dict rt r =
    ("timestamp", Value.str r.timestamp)
    ∷ ("tier", Value.str r.tier)
    ∷ ("tool", Value.str r.tool)
    ∷ ("decision", Value.str r.decision)
    ∷ ("rule", Value.str r.rule)
    ∷ ("reason", Value.str r.reason)
    ∷ ("policy", optional_text r.policy)
    ∷ ("args", json_safe rt (Value.list (of_list r.args)))
    ∷ ("kwargs", json_safe rt (Value.dict (of_dict r.kwargs)))
    ∷ detail_entry rt r.detail
