-- ===== src/Tests/Gate.antt =====
-- The engine: its decisions, its counters, and runs of it.

use asphallea.Prelude.{refl, false, str_dec, ◌≡◌, [], arith, length, ◌≤◌, ◌∷◌}
use asphallea.Engine.Run.{admissions, admissions-max_calls, admissions-spend_cap}
use asphallea.Engine.{
  commit, check, check_access, check_network, check_reads, check_tool, check_writes, first_refused,
  targets_of, under_any, under_prefix, within_any, check_budget, check_calls, check_rate,
  check_spend, drop_expired, new_engine,
}
use asphallea.Tests.Data.{runtime, policy, engine, rate, inside, outside, calls}
use asphallea.Engine.Rules.{verdicts, all_hold, check-rule, first_failed}
use asphallea.Prelude.Int.{pos, ◌-ℤ◌}
use asphallea.Policy.Queries.{tool_allowed}
use asphallea.Engine.Counters.{CostsNothing, CostsOne, check-CostsNothing, check-CostsOne}
use asphallea.Engine.RateWindow.{Spaced, admissions-rate_limit}
use asphallea.Prelude.Dict.{insert, lookup}
use asphallea.Engine.Spec.{answers, spec_run}
use asphallea.Engine.Spec.Refine.{answers-spec_run}

check-rule_example :
    (("write_paths" ≡ first_failed (verdicts runtime outside (pos 2) engine))
      × (false ≡ all_hold (verdicts runtime outside (pos 2) engine)))
unfolding check check_access check_tool check_reads check_writes check_network first_refused
    within_any under_any under_prefix tool_allowed targets_of str_dec
check-rule_example =
    check-rule runtime outside (pos 2) engine
      {d = record {
        allowed = false;
        rule = "write_paths";
        reason = "write path value is not under an allowed write prefix";
      }}
      refl

-- The second call is outside the write prefix, the fourth meets the rate limit, the fifth comes when the
-- window has passed, and the last meets the cap.
admissions_test : admissions runtime "save" calls engine [] ≡ pos 90 ∷ pos 3 ∷ pos 1 ∷ []
unfolding admissions check check_access check_tool check_reads check_writes check_network
    first_refused within_any under_any under_prefix tool_allowed targets_of str_dec check_budget
    check_calls check_rate check_spend commit drop_expired lookup insert ◌-ℤ◌
admissions_test = refl

check-CostsNothing_example :
    CostsNothing outside (pos 2) engine (check runtime outside (pos 2) engine).1
unfolding check check_access check_tool check_reads check_writes check_network first_refused
    within_any under_any under_prefix tool_allowed targets_of str_dec
check-CostsNothing_example = check-CostsNothing runtime outside (pos 2) engine refl

check-CostsOne_example : CostsOne inside (pos 1) engine (check runtime inside (pos 1) engine).1
unfolding check check_access check_tool check_reads check_writes check_network first_refused
    within_any under_any under_prefix tool_allowed targets_of str_dec check_budget check_calls
    check_rate check_spend commit drop_expired lookup insert ◌-ℤ◌
check-CostsOne_example = check-CostsOne runtime inside (pos 1) engine refl

admissions-max_calls_example : length (admissions runtime "save" calls engine []) ≤ 3
unfolding lookup str_dec
admissions-max_calls_example = admissions-max_calls runtime "save" policy calls {cap = pos 3} refl

admissions-spend_cap_example : length (admissions runtime "save" calls engine []) ≤ 3
unfolding lookup str_dec
admissions-spend_cap_example = admissions-spend_cap runtime "save" policy calls {cap = pos 3} refl

admissions-rate_limit_example : Spaced (pos 60) 2 (admissions runtime "save" calls engine [])
unfolding lookup str_dec
admissions-rate_limit_example =
    admissions-rate_limit runtime "save" rate policy (pos 0) calls refl (ground arith)

answers-spec_run_example :
    answers runtime calls (new_engine policy) ≡ spec_run runtime policy calls []
answers-spec_run_example = answers-spec_run runtime policy (pos 0) calls (ground arith)
