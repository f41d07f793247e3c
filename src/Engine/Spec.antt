-- ===== src/Engine/Spec.antt =====
-- What the engine of asphallea/engine.py promises, over the history of the calls that it allowed. The
-- specification keeps every allowed call with its clock, and no counter.
pub mod Window
pub mod Refine
use asphallea.Prelude.{
  String, Bool, List, [], ◌∷◌, ◌++◌, length, count, ◌==◌, if◌then◌else◌, Option, false, none, some,
  true,
}
use asphallea.Prelude.Dict.{lookup}
use asphallea.Engine.{Call, check, check_access, Engine}
use asphallea.Engine.Run.{Schedule}
use asphallea.Engine.RateWindow.{after}
use asphallea.Engine.Rules.{below, access_verdicts, first_failed, all_hold}
use asphallea.Decision.{Decision}
use asphallea.Policy.{Policy, RateLimit}
use asphallea.Errors.{Result, ok, raise}
use asphallea.Runtime.{Runtime}
use asphallea.Prelude.Int.{ℤ, ◌-ℤ◌}

-- The allowed calls, newest first.
abbrev pub History : Type 0
History = List (String × ℤ)

-- The clocks of the calls of one tool.
abbrev pub clocks : String → History → List ℤ
clocks tool [] = []
clocks tool ((called, clock) ∷ history) =
    let rest = clocks tool history in if called == tool then clock ∷ rest else rest

-- Fewer calls of the tool than the limit lie in the window that ends at the clock.
abbrev pub within_rate : ℤ → Option RateLimit → List ℤ → Bool
within_rate clock none past = true
within_rate clock (some rl) past =
    below (count (after (clock -ℤ rl.window_seconds)) past) (some rl.max_calls)

-- A decision, as its rule and whether it allows.
abbrev pub Verdict : Type 0
Verdict = Result (String × Bool)

abbrev pub verdict_of : Result Decision → Verdict
verdict_of (raise x) = raise x
verdict_of (ok d) = ok (d.rule, d.allowed)

abbrev pub allows : Verdict → Bool
allows (raise x) = false
allows (ok (rule, allowed)) = allowed

module _ (rt : Runtime) (p : Policy) where
  abbrev pub spec_verdicts : Call → ℤ → History → List (String × Bool)
  spec_verdicts c clock history =
      let past = clocks c.tool history in
      access_verdicts rt c p
      ++ ("max_calls", below (length past) (lookup c.tool p.max_calls))
        ∷ ("rate_limit", within_rate clock (lookup c.tool p.rate_limits) past)
        ∷ ("spend_cap", below (length past) (lookup c.tool p.spend_caps))
        ∷ []

  unfoldable pub spec_check : Call → ℤ → History → Verdict
  spec_check c clock history =
      let rules = spec_verdicts c clock history in
      elim (check_access rt p c) [
        | raise x ↦ raise x
        | ok _ ↦ ok (first_failed rules, all_hold rules)
      ]

  abbrev pub record_call : Call → ℤ → Verdict → History → History
  record_call c clock v history = if allows v then (c.tool, clock) ∷ history else history

  unfoldable pub spec_run : Schedule → History → List Verdict
  spec_run [] history = []
  spec_run ((c, clock) ∷ rest) history =
      let v = spec_check c clock history in v ∷ spec_run rest (record_call c clock v history)

-- What the engine itself answers to a schedule.
unfoldable pub answers : Runtime → Schedule → Engine → List Verdict
answers rt [] e = []
answers rt ((c, clock) ∷ rest) e =
    let r = check rt c clock e in verdict_of r.0 ∷ answers rt rest r.1
