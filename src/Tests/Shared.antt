-- ===== src/Tests/Shared.antt =====
-- Two threads that share an engine, and whose calls take the lock in another order than they read the clock.
use asphallea.Prelude.{◌≡◌, ◌≢◌, ◌∷◌, [], refl, str_dec, arith}
use asphallea.Prelude.Int.{pos, ◌-ℤ◌}
use asphallea.Prelude.Dict.{lookup, insert}
use asphallea.Decision.{all_passed}
use asphallea.Policy.{Policy}
use asphallea.Policy.Queries.{tool_allowed}
use asphallea.Engine.{
  check, check_access, check_budget, check_calls, check_network, check_rate, check_reads,
  check_spend, check_tool, check_writes, commit, drop_expired, first_refused, targets_of, under_any,
  under_prefix, within_any,
}
use asphallea.Engine.Threads.{Threads, Reach, start, next, tick, read_clock, section, granted}
use asphallea.Engine.Threads.Rate.{Paced, Reach-Paced}
use asphallea.Engine.Threads.Recovers.{Reach-recovers}
use asphallea.Tests.Data.{runtime, policy, rate, inside}

-- The rate limit alone: two calls in 60 seconds.
abbrev limited : Policy
limited = record policy { max_calls = []; spend_caps = [] }

-- Two calls in turn, then one that reads 50 and waits while another reads 100 and goes first.
abbrev overtaken : (s : Threads) × Reach runtime limited s
overtaken = (
  _,
  next
      (next
        (next
          (next
            (next
              (next
                (next
                  (next
                    (next
                      (next (next (start (pos 30)) (read_clock inside))
                        (section [] [] inside (pos 30) refl))
                      (tick (pos 31) (omega arith)))
                    (read_clock inside))
                  (section [] [] inside (pos 31) refl))
                (tick (pos 50) (omega arith)))
              (read_clock inside))
            (tick (pos 100) (omega arith)))
          (read_clock inside))
        (section [] ((inside, pos 50) ∷ []) inside (pos 100) refl))
      (section [] [] inside (pos 50) refl),
)

-- The call at 50 goes ahead, although those at 30 and 31 did: the call at 100 has taken them off the window.
overtaken_test :
    granted "save" overtaken.0.sections
    ≡ (pos 100, pos 50) ∷ (pos 100, pos 100) ∷ (pos 31, pos 31) ∷ (pos 30, pos 30) ∷ []
unfolding check check_access check_tool check_reads check_writes check_network first_refused
    within_any under_any under_prefix tool_allowed targets_of str_dec check_budget check_calls
    check_rate check_spend commit drop_expired lookup insert ◌-ℤ◌
overtaken_test = refl

Reach-Paced_example : Paced (pos 60) 2 (granted "save" overtaken.0.sections)
unfolding str_dec lookup
Reach-Paced_example = Reach-Paced runtime limited "save" rate refl overtaken.1

-- At 160 the call is let through again.
Reach-recovers_example : all_passed.rule ≢ "rate_limit"
unfolding check check_access check_tool check_reads check_writes check_network first_refused
    within_any under_any under_prefix tool_allowed targets_of str_dec check_budget check_calls
    check_rate check_spend commit drop_expired lookup insert ◌-ℤ◌
Reach-recovers_example =
    Reach-recovers runtime "save" rate {s = overtaken.0} inside (pos 160) {d = all_passed} refl
      (omega arith) overtaken.1 refl refl refl
