-- ===== src/Audit.antt =====
-- asphallea/audit.py: audit records, their JSON form, redaction and the sinks. The children model all but
-- the record and the interface of a sink.
pub mod Patterns
pub mod Json
pub mod Redact
pub mod Log
use asphallea.Prelude.{String, List, Option}
use asphallea.Prelude.Dict.{Dict}
use asphallea.Value.{Value}
use asphallea.Errors.{Result}

-- `class AuditRecord`. The timestamp is given by the caller of the model, who owns the clock.
pub record AuditRecord : Type 0 where
  pub tool : String
  pub decision : String
  pub reason : String
  pub rule : String
  pub tier : String
  pub args : List Value
  pub kwargs : Dict Value
  pub policy : Option String
  pub timestamp : String
  pub detail : Option (Dict Value)

-- `class AuditSink(Protocol)`: anything with a `write`, which may raise.
pub record AuditSink : Type 1 where
  pub State : Type 0
  pub write : AuditRecord → State → Result State
