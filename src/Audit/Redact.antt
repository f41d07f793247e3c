-- ===== src/Audit/Redact.antt =====
-- `default_redactor`, `_redact_value` and `no_redaction` of asphallea/audit.py.
pub mod Clean
use asphallea.Prelude.{String, if◌then◌else◌}
use asphallea.Prelude.Dict.{Dict, insert, get_or}
use asphallea.Runtime.{Runtime, str_of, iterate}
use asphallea.Value.{Value, Items, nil, cons, Fields, end, field}
use asphallea.Errors.{Result, ok, ◌>>=◌}
use asphallea.Audit.Patterns.{secret_key, looks_secret}

abbrev pub redacted : String
redacted = "***REDACTED***"

-- `_redact_value`. A tuple, a set or another object is returned as it is.
unfoldable mutual
  pub redact_value : Runtime → Value → Value
  redact_value rt (Value.str s) = Value.str (if looks_secret s then redacted else s)
  redact_value rt (Value.dict fs) = Value.dict (redact_fields rt fs)
  redact_value rt (Value.list vs) = Value.list (redact_items rt vs)
  redact_value rt Value.null = Value.null
  redact_value rt (Value.bool b) = Value.bool b
  redact_value rt (Value.int n) = Value.int n
  redact_value rt (Value.float x) = Value.float x
  redact_value rt (Value.tuple vs) = Value.tuple vs
  redact_value rt (Value.set vs) = Value.set vs
  redact_value rt (Value.object n) = Value.object n

  pub redact_items : Runtime → Items → Items
  redact_items rt nil = nil
  redact_items rt (cons v vs) = cons (redact_value rt v) (redact_items rt vs)

  pub redact_fields : Runtime → Fields → Fields
  redact_fields rt end = end
  redact_fields rt (field k v fs) =
      let inside = redact_value rt v in
      field k (if secret_key (str_of rt k) then Value.str redacted else inside)
        (redact_fields rt fs)

-- `record["kwargs"] = {…}` where `record.get("kwargs", {})` is a dict
abbrev put_kwargs : Runtime → Value → Dict Value → Dict Value
put_kwargs rt (Value.dict fs) entries = insert "kwargs" (Value.dict (redact_fields rt fs)) entries
put_kwargs rt _ entries = entries

-- `default_redactor`
unfoldable pub default_redactor : Runtime → Dict Value → Result (Dict Value)
unfolding redact_value iterate
default_redactor rt entries = do
  args ← iterate (get_or "args" entries (Value.list nil))
  let done = insert "args" (Value.list (redact_items rt args)) entries
  ok (put_kwargs rt (get_or "kwargs" done (Value.dict end)) done)

-- `no_redaction`
unfoldable pub no_redaction : Dict Value → Result (Dict Value)
no_redaction entries = ok entries
