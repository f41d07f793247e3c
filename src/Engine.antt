-- ===== src/Engine.antt =====
-- asphallea/engine.py: `Decision`, `Engine` and `Engine.check`. The children are about what
-- a check allows, what it does to the counters, and runs of checks.
mod Messages
pub mod Rules
pub mod Counters
pub mod Run
pub mod RateWindow
pub mod Threads
pub mod Boundary
pub mod Spec
pub use Messages.*
use asphallea.Prelude.{
  ℕ, ◌+◌, String, ◌<>◌, Bool, true, false, List, [], ◌∷◌, ◌++◌, map, Option, none, some, length,
  is_empty, ◌&&◌, ◌==◌, if◌then◌else◌,
}
use asphallea.Prelude.Int.{ℤ, pos, ◌-ℤ◌, leb_ℤ}
use asphallea.Prelude.Dict.{Dict, lookup, insert, get_or, touch}
use asphallea.Runtime.{Runtime, str_of}
use asphallea.Value.{Value}
use asphallea.Errors.{Result, ok, raise, ◌>>=◌}
use asphallea.Policy.{Policy, RateLimit}
use asphallea.Policy.Queries.{tool_allowed, network_allowed}
use asphallea.Decision.{Decision, all_passed, deny}

-- `class Engine`. The lock makes each `check` one step.
pub record Engine : Type 0 where
  pub policy : Policy
  pub call_counts : Dict ℕ
  pub rate_events : Dict (List ℤ)
  pub spend_counts : Dict ℕ

-- `Engine(policy)`
abbrev pub new_engine : Policy → Engine
new_engine p = record { policy = p; call_counts = []; rate_events = []; spend_counts = [] }

-- The arguments of a `check`, but for the clock.
pub record Call : Type 0 where
  pub tool : String
  pub reads : List String
  pub writes : List String
  pub network_targets : List String
  pub network : Bool

-- `os.path.commonpath([real, norm_prefix]) == norm_prefix`; a `ValueError` goes on to the next prefix.
unfoldable pub under_prefix : Runtime → String → String → Bool
under_prefix rt real prefix =
    let norm_prefix = rt.normcase prefix in
    elim (rt.commonpath real norm_prefix) [ ok common ↦ common == norm_prefix | raise x ↦ false ]

-- The loop of `_within_any` over the prefixes.
unfoldable pub under_any : Runtime → String → List String → Bool
under_any rt real [] = false
under_any rt real (prefix ∷ rest) =
    let later = under_any rt real rest in if under_prefix rt real prefix then true else later

-- `_within_any`
unfoldable pub within_any : Runtime → List String → String → Result Bool
unfolding under_any under_prefix
within_any rt prefixes path = do
  real ← rt.real_path path
  ok (under_any rt (rt.normcase real) prefixes)

-- A loop that stops at the first entry whose test is false, or raises.
unfoldable pub first_refused {ℓ} : {A : Type ℓ} → (A → Result Bool) → List A → Result (Option A)
first_refused test [] = ok none
first_refused test (x ∷ xs) =
    let rest = first_refused test xs in do passes ← test x; if passes then rest else ok (some x)

-- The decision that names the entry at which such a loop stopped.
abbrev pub refusal {ℓ} : {A : Type ℓ} → (A → Decision) → Option A → Option Decision
refusal say none = none
refusal say (some x) = some (say x)

-- `targets` of `check`: a forced network flag with no target is one unknown target.
unfoldable pub targets_of : Call → List (Option String)
targets_of c =
    if c.network && is_empty c.network_targets then none ∷ [] else map some c.network_targets

-- The next rule, unless one has denied.
infixr 20 ◌orelse◌
abbrev pub ◌orelse◌ : Result (Option Decision) → Result (Option Decision) → Result (Option Decision)
raise x orelse next = raise x
ok (some d) orelse next = ok (some d)
ok none orelse next = next

module _ (rt : Runtime) (p : Policy) where
  -- Rule 1
  unfoldable pub check_tool : Call → Option Decision
  check_tool c = if tool_allowed p c.tool then none else some (deny_tool rt c.tool)

  -- Rule 2
  unfoldable pub check_reads : Call → Result (Option Decision)
  check_reads c = do
    outside ← first_refused (within_any rt p.read_paths) c.reads
    ok (refusal (deny_read rt) outside)

  -- Rule 3
  unfoldable pub check_writes : Call → Result (Option Decision)
  check_writes c = do
    outside ← first_refused (within_any rt p.write_paths) c.writes
    ok (refusal (deny_write rt) outside)

  -- Rule 4
  unfoldable pub check_network : Call → Result (Option Decision)
  check_network c = do
    refused ← first_refused (network_allowed rt p) (targets_of c)
    ok (refusal (deny_target rt c.tool) refused)

  -- Rules 1 to 4, which read no counter.
  unfoldable pub check_access : Call → Result (Option Decision)
  unfolding check_tool check_reads check_writes check_network
  check_access c =
      ok (check_tool c) orelse check_reads c orelse check_writes c orelse check_network c

-- `while window and window[0] <= cutoff: window.popleft()`
unfoldable pub drop_expired : ℤ → List ℤ → List ℤ
drop_expired cutoff [] = []
drop_expired cutoff (t ∷ window) =
    let rest = drop_expired cutoff window in if leb_ℤ t cutoff then rest else t ∷ window

-- A rule that reads counters, and the engine that it leaves.
abbrev pub Rule : Type 0
Rule = Engine → Option Decision × Engine

-- The next rule, unless one has denied.
abbrev pub and_then : Option Decision × Engine → Rule → Option Decision × Engine
and_then (some d, e) next = (some d, e)
and_then (none, e) next = next e

module _ (rt : Runtime) (tool : String) where
  -- Rule 5. The lookup in the `defaultdict` stores a zero.
  unfoldable pub check_calls : Rule
  check_calls e = elim (lookup tool e.policy.max_calls) [
    | none ↦ (none, e)
    | some cap ↦ (
      if leb_ℤ cap (pos (get_or tool e.call_counts 0)) then some (deny_calls rt tool cap) else none,
      record e { call_counts = touch tool 0 e.call_counts },
    )
  ]

  -- Rule 6. The deque in the dict is the one whose front is dropped.
  unfoldable pub check_rate : ℤ → Rule
  unfolding drop_expired
  check_rate clock e = elim (lookup tool e.policy.rate_limits) [
    | none ↦ (none, e)
    | some rl ↦
        let window = drop_expired (clock -ℤ rl.window_seconds) (get_or tool e.rate_events []) in
        (
          if leb_ℤ rl.max_calls (pos (length window)) then some (deny_rate rt tool rl) else none,
          record e { rate_events = insert tool window e.rate_events },
        )
  ]

  -- Rule 7
  unfoldable pub check_spend : Rule
  check_spend e = elim (lookup tool e.policy.spend_caps) [
    | none ↦ (none, e)
    | some cap ↦ (
      if leb_ℤ cap (pos (get_or tool e.spend_counts 0))
          then some (deny_spend rt tool cap)
          else none,
      record e { spend_counts = touch tool 0 e.spend_counts },
    )
  ]

  -- Rules 5 to 7
  unfoldable pub check_budget : ℤ → Rule
  check_budget clock e = and_then (and_then (check_calls e) (check_rate clock)) check_spend

-- An allowed call advances every counter that applies.
unfoldable pub commit : String → ℤ → Engine → Engine
commit tool clock e = record e {
  call_counts = insert tool (get_or tool e.call_counts 0 + 1) e.call_counts;
  rate_events = elim (lookup tool e.policy.rate_limits) [
    | none ↦ e.rate_events
    | some rl ↦ insert tool (get_or tool e.rate_events [] ++ clock ∷ []) e.rate_events
  ];
  spend_counts = elim (lookup tool e.policy.spend_caps) [
    | none ↦ e.spend_counts
    | some cap ↦ insert tool (get_or tool e.spend_counts 0 + 1) e.spend_counts
  ];
}

-- What `check` returns after rules 5 to 7.
abbrev pub settle : String → ℤ → Option Decision × Engine → Result Decision × Engine
settle tool clock (some d, e) = (ok d, e)
settle tool clock (none, e) = (ok all_passed, commit tool clock e)

-- `Engine.check`. An exception of rules 2 to 4 leaves the counters as they were.
unfoldable pub check : Runtime → Call → ℤ → Engine → Result Decision × Engine
check rt c clock e = elim (check_access rt e.policy c) [
  | raise x ↦ (raise x, e)
  | ok (some d) ↦ (ok d, e)
  | ok none ↦ settle c.tool clock (check_budget rt c.tool clock e)
]

-- The result of `Engine.snapshot`.
pub record Snapshot : Type 0 where
  pub calls : Dict ℕ
  pub spend : Dict ℕ
  pub rate_window_sizes : Dict ℕ

-- `{k: len(v) for k, v in d.items()}`
unfoldable pub sizes : Dict (List ℤ) → Dict ℕ
sizes [] = []
sizes ((k, v) ∷ d) = (k, length v) ∷ sizes d

-- `Engine.snapshot`
unfoldable pub snapshot : Engine → Snapshot
unfolding sizes
snapshot e = record {
  calls = e.call_counts;
  spend = e.spend_counts;
  rate_window_sizes = sizes e.rate_events;
}
