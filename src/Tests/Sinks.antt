-- ===== src/Tests/Sinks.antt =====
-- The audit records and the sinks.
use asphallea.Prelude.{String, [], none, some, if◌then◌else◌, ◌==◌, ◌≡◌, ◌∷◌}
use asphallea.Tests.Data.{runtime}
use asphallea.Audit.{AuditRecord}
use asphallea.Prelude.Dict.{Dict, get_or}
use asphallea.Value.{Value, cons, nil}
use asphallea.Errors.{ok, raise, Result, value_error}
use asphallea.Prelude.Int.{pos}
use asphallea.Audit.Json.Safe.{IsSafe, json_safe-IsSafe}
use asphallea.Audit.Redact.Clean.{IsScrubbed, redact-to_dict}
use asphallea.Audit.Redact.{default_redactor}
use asphallea.Audit.Json.{json_safe, to_dict}
use asphallea.Runtime.{str_of}

abbrev entry : AuditRecord
entry = record {
  tool = "save";
  decision = "deny";
  reason = "r";
  rule = "write_paths";
  tier = "policy";
  args = Value.tuple (cons (Value.str "sk-abcdefghijklmnopqrstuvwx") nil) ∷ [];
  kwargs = ("path", Value.str "/w/outer") ∷ ("api_key", Value.int (pos 7)) ∷ [];
  policy = some "agent";
  timestamp = "2026-01-01T00:00:00";
  detail = none;
}

json_safe-IsSafe_example : IsSafe (json_safe runtime (Value.set (cons (Value.object (pos 1)) nil)))
json_safe-IsSafe_example = json_safe-IsSafe runtime (Value.set (cons (Value.object (pos 1)) nil))

redact-to_dict_example :
    (d : Dict Value) × (default_redactor runtime (to_dict runtime entry) ≡ ok d)
    × IsScrubbed runtime (to_dict runtime entry) d
redact-to_dict_example = redact-to_dict runtime entry

-- `json.dumps`, in place of which only the tool is printed.
abbrev dumps : Dict Value → Result String
dumps d = ok (str_of runtime (get_or "tool" d Value.null))

-- An encoding that refuses one line.
abbrev encodes : String → Result (Unit {0})
encodes line = if line == "bad\n" then raise (value_error "surrogates not allowed") else ok tt

abbrev unencodable : AuditRecord
unencodable = record entry { tool = "bad" }
