-- ===== src/Engine/Rules.antt =====
-- On `Engine.check` of asphallea/engine.py: which calls it allows, and which rule it names when it denies.
use asphallea.Prelude.{
  ℕ, ◌≡◌, ◌⊎◌, inl, inr, String, Bool, true, false, not, ◌&&◌, List, [], ◌∷◌, ◌++◌, Option, none,
  some, length, all, arith, if◌then◌else◌,
}
use asphallea.Prelude.Int.{ℤ, pos, ◌-ℤ◌, leb_ℤ}
use asphallea.Prelude.Dict.{lookup, get_or}
use asphallea.Runtime.{Runtime}
use asphallea.Errors.{Exception, Result, ok, raise, Result-cases}
use asphallea.Policy.{Policy, RateLimit}
use asphallea.Policy.Queries.{tool_allowed, network_allowed}
use asphallea.Decision.{Decision, all_passed}
use asphallea.Engine.{
  Engine, Call, check, check_access, check_budget, check_calls, check_rate, check_spend, within_any,
  first_refused, targets_of, drop_expired, commit,
}

-- A test that ended with `True`.
abbrev pub passes : Result Bool → Bool
passes (ok b) = b
passes (raise x) = false

-- Whether the call went ahead.
abbrev pub admitted : Result Decision → Bool
admitted (ok d) = d.allowed
admitted (raise x) = false

-- The rule of a decision to deny, if there is one.
abbrev pub rule_of : Option Decision → String
rule_of none = "allow"
rule_of (some d) = d.rule

abbrev pub allowed_of : Option Decision → Bool
allowed_of none = true
allowed_of (some d) = d.allowed

abbrev pub is_none {ℓ} : {A : Type ℓ} → Option A → Bool
is_none none = true
is_none (some x) = false

module _ {ℓ} {A : Type ℓ} (test : A → Result Bool) where
  first_refused-passes :
      (xs : List A) (o : Option A)
      → first_refused test xs ≡ ok o
      → all (λ x. passes (test x)) xs ≡ is_none o
  unfolding first_refused
  first_refused-passes [] o h = ground arith
  first_refused-passes (x ∷ xs) o h = ground (arith, first_refused-passes xs o)

  first_refused-raise :
      (xs : List A) (x : Exception)
      → first_refused test xs ≡ raise x
      → all (λ y. passes (test y)) xs ≡ false
  unfolding first_refused
  first_refused-raise [] x h = cc
  first_refused-raise (y ∷ ys) x h = ground (arith, first_refused-raise ys x)

  -- The loop raises at an entry, or it ends with no entry just when every entry passes.
  pub first_refused-cases :
      (xs : List A)
      → ((x : Exception) × (first_refused test xs ≡ raise x)
          × (all (λ y. passes (test y)) xs ≡ false))
        ⊎ ((o : Option A) × (first_refused test xs ≡ ok o)
            × (all (λ y. passes (test y)) xs ≡ is_none o))
  first_refused-cases xs = elim (Result-cases (first_refused test xs)) [
    | inl (o, h) ↦ inr (o, h, first_refused-passes xs o h)
    | inr (x, h) ↦ inl (x, h, first_refused-raise xs x h)
  ]

-- A count below an optional cap.
abbrev pub below : ℕ → Option ℤ → Bool
below n none = true
below n (some cap) = not (leb_ℤ cap (pos n))

-- The calls that a rate limit still counts at the clock.
abbrev pub live : ℤ → Option RateLimit → List ℤ → List ℤ
live clock none window = window
live clock (some rl) window = drop_expired (clock -ℤ rl.window_seconds) window

abbrev pub max_rate : Option RateLimit → Option ℤ
max_rate none = none
max_rate (some rl) = some rl.max_calls

-- The name of the first rule that fails, or `allow`.
abbrev pub first_failed : List (String × Bool) → String
first_failed [] = "allow"
first_failed ((rule, passed) ∷ rest) = if passed then first_failed rest else rule

abbrev pub all_hold : List (String × Bool) → Bool
all_hold [] = true
all_hold ((rule, passed) ∷ rest) = passed && all_hold rest

-- The rules in the order of the documentation, each with whether the call passes it.
module _ (rt : Runtime) (c : Call) where
  abbrev pub access_verdicts : Policy → List (String × Bool)
  access_verdicts p =
      ("tool_allowlist", tool_allowed p c.tool)
      ∷ ("read_paths", all (λ path. passes (within_any rt p.read_paths path)) c.reads)
      ∷ ("write_paths", all (λ path. passes (within_any rt p.write_paths path)) c.writes)
      ∷ ("network", all (λ target. passes (network_allowed rt p target)) (targets_of c))
      ∷ []

  abbrev pub budget_verdicts : ℤ → Engine → List (String × Bool)
  budget_verdicts clock e =
      let rl = lookup c.tool e.policy.rate_limits in
      let window = live clock rl (get_or c.tool e.rate_events []) in
      ("max_calls", below (get_or c.tool e.call_counts 0) (lookup c.tool e.policy.max_calls))
      ∷ ("rate_limit", below (length window) (max_rate rl))
      ∷ ("spend_cap", below (get_or c.tool e.spend_counts 0) (lookup c.tool e.policy.spend_caps))
      ∷ []

  abbrev pub verdicts : ℤ → Engine → List (String × Bool)
  verdicts clock e = access_verdicts e.policy ++ budget_verdicts clock e

  check_access-verdicts :
      (p : Policy) (o : Option Decision)
      → check_access rt p c ≡ ok o
      → (first_failed (access_verdicts p) ≡ rule_of o)
        × (all_hold (access_verdicts p) ≡ is_none o)
        × (allowed_of o ≡ is_none o)
  unfolding check_access
  check_access-verdicts p o h = ground (
    arith,
    first_refused-cases (within_any rt p.read_paths) c.reads,
    first_refused-cases (within_any rt p.write_paths) c.writes,
    first_refused-cases (network_allowed rt p) (targets_of c),
  )

  check_access-raise :
      (p : Policy) (x : Exception)
      → check_access rt p c ≡ raise x
      → all_hold (access_verdicts p) ≡ false
  unfolding check_access
  check_access-raise p x h = ground (
    arith,
    first_refused-cases (within_any rt p.read_paths) c.reads,
    first_refused-cases (within_any rt p.write_paths) c.writes,
    first_refused-cases (network_allowed rt p) (targets_of c),
  )

  check_budget-verdicts :
      (clock : ℤ) (e : Engine)
      → (first_failed (budget_verdicts clock e) ≡ rule_of (check_budget rt c.tool clock e).0)
        × (all_hold (budget_verdicts clock e) ≡ is_none (check_budget rt c.tool clock e).0)
        × (allowed_of (check_budget rt c.tool clock e).0
            ≡ is_none (check_budget rt c.tool clock e).0)
  unfolding check_budget check_calls check_rate check_spend
  check_budget-verdicts clock e = ground arith

module _ (rt : Runtime) (c : Call) (clock : ℤ) (e : Engine) where
  check_budget-denies :
      allowed_of (check_budget rt c.tool clock e).0 ≡ is_none (check_budget rt c.tool clock e).0
  check_budget-denies = (check_budget-verdicts rt c clock e).2

  -- The three ways in which a check ends, with the engine that it leaves.
  pub check_outcome :
      ((admitted (check rt c clock e).0 ≡ false) × ((check rt c clock e).1 ≡ e))
      ⊎ ((admitted (check rt c clock e).0 ≡ false)
          × ((check rt c clock e).1 ≡ (check_budget rt c.tool clock e).1))
      ⊎ ((check_budget rt c.tool clock e).0 ≡ none)
        × ((check rt c clock e).0 ≡ ok all_passed)
        × ((check rt c clock e).1 ≡ commit c.tool clock (check_budget rt c.tool clock e).1)
  unfolding check
  check_outcome = elim (Result-cases (check_access rt e.policy c)) [
    | inr (x, r) ↦ ground arith
    | inl (o, r) ↦ ground (arith, check_access-verdicts rt c e.policy o r, check_budget-denies)
  ]

-- The decision of a check, whenever it does not raise: it names the first rule of the documented order
-- that the call fails, `allow` if it fails none, and it allows just when the call passes all seven.
pub check-rule :
    (rt : Runtime) (c : Call) (clock : ℤ) (e : Engine) {d : Decision}
    → (check rt c clock e).0 ≡ ok d
    → (d.rule ≡ first_failed (verdicts rt c clock e))
      × (d.allowed ≡ all_hold (verdicts rt c clock e))
unfolding check
check-rule rt c clock e {d} h = elim (Result-cases (check_access rt e.policy c)) [
  | inr (x, r) ↦ absurd (ground arith)
  | inl (o, r) ↦
      ground (arith, check_access-verdicts rt c e.policy o r, check_budget-verdicts rt c clock e)
]

-- A call that passes all seven rules is allowed; in particular no rule raises.
check_passing :
    (rt : Runtime) (c : Call) (clock : ℤ) (e : Engine)
    → all_hold (verdicts rt c clock e) ≡ true
    → (check rt c clock e).0 ≡ ok all_passed
unfolding check
check_passing rt c clock e h = elim (Result-cases (check_access rt e.policy c)) [
  | inr (x, r) ↦ absurd (ground (arith, check_access-raise rt c e.policy x r))
  | inl (o, r) ↦
      ground (arith, check_access-verdicts rt c e.policy o r, check_budget-verdicts rt c clock e)
]
