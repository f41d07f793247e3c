-- ===== src/Engine/Counters.antt =====
-- On `Engine.check` of asphallea/engine.py: what one check does to the counters.
use asphallea.Prelude.{
  ℕ, ◌+◌, ◌≡◌, ◌⊎◌, String, Bool, true, false, ◌&&◌, List, [], ◌∷◌, ◌++◌, none, arith, ◌==◌,
  if◌then◌else◌,
}
use asphallea.Prelude.Int.{ℤ}
use asphallea.Prelude.Dict.{lookup, get_or, has_key, get_or-insert, get_or-touch}
use asphallea.Runtime.{Runtime}
use asphallea.Engine.{
  Engine, Call, check, check_budget, check_calls, check_rate, check_spend, commit,
}
use asphallea.Engine.Rules.{live, admitted, check_outcome}

abbrev pub calls_of : Engine → String → ℕ
calls_of e tool = get_or tool e.call_counts 0

abbrev pub spent_of : Engine → String → ℕ
spent_of e tool = get_or tool e.spend_counts 0

abbrev pub window_of : Engine → String → List ℤ
window_of e tool = get_or tool e.rate_events []

abbrev pub one_if : Bool → ℕ
one_if b = if b then 1 else 0

-- The events of the call's tool that its rate limit still counts.
abbrev pub live_window : Call → ℤ → Engine → List ℤ
live_window c clock e = live clock (lookup c.tool e.policy.rate_limits) (window_of e c.tool)

-- What rules 5 to 7 leave: the values of the counters, but for expired events of the call's tool.
module _ (rt : Runtime) (c : Call) (clock : ℤ) (e : Engine) where
  check_budget-policy : (check_budget rt c.tool clock e).1.policy ≡ e.policy
  unfolding check_budget check_calls check_rate check_spend
  check_budget-policy = ground arith

  check_budget-calls :
      (tool : String) → calls_of (check_budget rt c.tool clock e).1 tool ≡ calls_of e tool
  unfolding check_budget check_calls check_rate check_spend
  check_budget-calls tool = ground (arith, get_or-touch tool c.tool 0 e.call_counts)

  check_budget-spent :
      (tool : String) → spent_of (check_budget rt c.tool clock e).1 tool ≡ spent_of e tool
  unfolding check_budget check_calls check_rate check_spend
  check_budget-spent tool = ground (arith, get_or-touch tool c.tool 0 e.spend_counts)

  check_budget-window :
      (tool : String)
      → (window_of (check_budget rt c.tool clock e).1 tool ≡ window_of e tool)
        ⊎ ((c.tool ≡ tool)
            × (window_of (check_budget rt c.tool clock e).1 tool ≡ live_window c clock e))
  unfolding check_budget check_calls check_rate check_spend
  check_budget-window tool =
      ground (arith, get_or-insert tool c.tool (live_window c clock e) [] e.rate_events)

  check_budget_passes :
      (check_budget rt c.tool clock e).0 ≡ none
      → window_of (check_budget rt c.tool clock e).1 c.tool ≡ live_window c clock e
  unfolding check_budget check_calls check_rate check_spend
  check_budget_passes h =
      ground (arith, get_or-insert c.tool c.tool (live_window c clock e) [] e.rate_events)

  pub check-policy : (check rt c clock e).1.policy ≡ e.policy
  unfolding check commit
  check-policy = ground (arith, check_outcome rt c clock e, check_budget-policy)

  pub check-calls :
      (tool : String)
      → calls_of (check rt c clock e).1 tool
        ≡ calls_of e tool + one_if (admitted (check rt c clock e).0 && c.tool == tool)
  unfolding check commit
  check-calls tool = ground (
    arith,
    check_outcome rt c clock e,
    check_budget-calls tool,
    check_budget-calls c.tool,
    get_or-insert tool c.tool (calls_of (check_budget rt c.tool clock e).1 c.tool + 1) 0
        (check_budget rt c.tool clock e).1.call_counts,
  )

  pub check-spent :
      (tool : String)
      → spent_of (check rt c clock e).1 tool
        ≡ spent_of e tool
          + one_if (
              admitted (check rt c clock e).0 && c.tool == tool && has_key tool e.policy.spend_caps)
  unfolding check commit
  check-spent tool = ground (
    arith,
    check_outcome rt c clock e,
    check_budget-policy,
    check_budget-spent tool,
    check_budget-spent c.tool,
    get_or-insert tool c.tool (spent_of (check_budget rt c.tool clock e).1 c.tool + 1) 0
        (check_budget rt c.tool clock e).1.spend_counts,
  )

  -- The window after an allowed call, if the tool has a rate limit.
  pub check-window_admitted :
      (tool : String)
      → admitted (check rt c clock e).0 ≡ true
      → window_of (check rt c clock e).1 tool ≡ (
          if c.tool == tool && has_key tool e.policy.rate_limits
          then live_window c clock e ++ clock ∷ []
          else window_of e tool)
  unfolding check commit
  check-window_admitted tool h = ground (
    arith,
    check_outcome rt c clock e,
    check_budget-policy,
    check_budget_passes,
    check_budget-window tool,
    get_or-insert tool c.tool (window_of (check_budget rt c.tool clock e).1 c.tool ++ clock ∷ []) []
        (check_budget rt c.tool clock e).1.rate_events,
  )

  pub check-window_denied :
      (tool : String)
      → admitted (check rt c clock e).0 ≡ false
      → (window_of (check rt c clock e).1 tool ≡ window_of e tool)
        ⊎ (c.tool ≡ tool) × (window_of (check rt c clock e).1 tool ≡ live_window c clock e)
  check-window_denied tool h = ground (arith, check_outcome rt c clock e, check_budget-window tool)

-- What a call that did not go ahead leaves: its tool's window may have lost its expired events.
pub record CostsNothing (c : Call) (clock : ℤ) (e e' : Engine) : Type 0 where
  pub policy : e'.policy ≡ e.policy
  pub calls : (tool : String) → calls_of e' tool ≡ calls_of e tool
  pub spent : (tool : String) → spent_of e' tool ≡ spent_of e tool
  pub window :
      (tool : String)
      → (window_of e' tool ≡ window_of e tool)
        ⊎ (c.tool ≡ tool) × (window_of e' tool ≡ live_window c clock e)

-- What an allowed call leaves: one more of each counter that applies to its tool.
pub record CostsOne (c : Call) (clock : ℤ) (e e' : Engine) : Type 0 where
  pub policy : e'.policy ≡ e.policy
  pub calls : (tool : String) → calls_of e' tool ≡ calls_of e tool + one_if (c.tool == tool)
  pub spent :
      (tool : String)
      → spent_of e' tool
        ≡ spent_of e tool + one_if (c.tool == tool && has_key tool e.policy.spend_caps)
  pub window :
      (tool : String)
      → window_of e' tool ≡ (
          if c.tool == tool && has_key tool e.policy.rate_limits
          then live_window c clock e ++ clock ∷ []
          else window_of e tool)

module _ (rt : Runtime) (c : Call) (clock : ℤ) (e : Engine) where
  -- A check that denies or raises leaves the policy, all call counts and all spend counts as they were,
  -- and every rate window too, but that its own tool's window may lose its expired events.
  pub check-CostsNothing :
      admitted (check rt c clock e).0 ≡ false → CostsNothing c clock e (check rt c clock e).1
  check-CostsNothing h = record {
    policy = check-policy rt c clock e;
    calls = λ tool. ground (arith, check-calls rt c clock e tool);
    spent = λ tool. ground (arith, check-spent rt c clock e tool);
    window = λ tool. check-window_denied rt c clock e tool h;
  }

  -- A check that allows adds one to the call count of its tool, one to the spend count if the tool has
  -- a spend cap, and its clock to the live events if the tool has a rate limit; nothing else changes.
  pub check-CostsOne :
      admitted (check rt c clock e).0 ≡ true → CostsOne c clock e (check rt c clock e).1
  check-CostsOne h = record {
    policy = check-policy rt c clock e;
    calls = λ tool. ground (arith, check-calls rt c clock e tool);
    spent = λ tool. ground (arith, check-spent rt c clock e tool);
    window = λ tool. check-window_admitted rt c clock e tool h;
  }
