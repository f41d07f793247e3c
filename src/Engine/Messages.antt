-- ===== src/Engine/Messages.antt =====
-- The decisions to deny of `Engine.check` in asphallea/engine.py, with their messages.
use asphallea.Prelude.{String, ◌<>◌, Option, none, some}
use asphallea.Prelude.Int.{ℤ}
use asphallea.Runtime.{Runtime, str_of}
use asphallea.Value.{Value}
use asphallea.Policy.{RateLimit}
use asphallea.Decision.{Decision, deny}

module _ (rt : Runtime) where
  -- `f"{text!r}"`
  abbrev pub quoted : String → String
  quoted s = rt.repr (Value.str s)

  abbrev pub deny_tool : String → Decision
  deny_tool tool = deny "tool_allowlist" ("tool " <> quoted tool <> " is not in the allowed set")

  abbrev pub deny_read : String → Decision
  deny_read path =
      deny "read_paths" ("read path " <> quoted path <> " is not under an allowed read prefix")

  abbrev pub deny_write : String → Decision
  deny_write path =
      deny "write_paths" ("write path " <> quoted path <> " is not under an allowed write prefix")

  abbrev pub deny_target : String → Option String → Decision
  deny_target tool none =
      deny "network" ("tool " <> quoted tool <> " uses the network but network is denied")
  deny_target tool (some target) =
      deny "network" ("network target " <> quoted target <> " is not allowed by the host rules")

  abbrev pub deny_calls : String → ℤ → Decision
  deny_calls tool cap =
      deny "max_calls"
        ("tool " <> quoted tool <> " reached its call limit of " <> str_of rt (Value.int cap))

  abbrev pub deny_rate : String → RateLimit → Decision
  deny_rate tool rl = deny "rate_limit" (
      "tool "
      <> quoted tool
      <> " exceeded "
      <> str_of rt (Value.int rl.max_calls)
      <> " calls per "
      <> rt.format_g rl.window_seconds
      <> "s")

  abbrev pub deny_spend : String → ℤ → Decision
  deny_spend tool cap = deny "spend_cap" (
      "tool "
      <> quoted tool
      <> " reached its spend cap of "
      <> str_of rt (Value.int cap)
      <> " invocations")
