-- ===== src/Decision.antt =====
-- `Decision` of asphallea/engine.py.
use asphallea.Prelude.{String, Bool, true, false, not}

-- `class Decision`
pub record Decision : Type 0 where
  pub allowed : Bool
  pub rule : String
  pub reason : String

-- `Decision.denied`
abbrev pub denied : Decision → Bool
denied d = not d.allowed

-- `Decision.allow(reason)`
abbrev pub allow : String → Decision
allow reason = record { allowed = true; rule = "allow"; reason = reason }

-- `Decision.deny(rule, reason)`
abbrev pub deny : String → String → Decision
deny rule reason = record { allowed = false; rule = rule; reason = reason }

-- `Decision.allow()`
abbrev pub all_passed : Decision
all_passed = allow "all rules passed"
