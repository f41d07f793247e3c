-- ===== src/Engine/Run.antt =====
-- Runs of checks against one engine of asphallea/engine.py, and its caps on calls and on spend.
use asphallea.Prelude.{
  ◌+◌, ◌≤◌, ◌≡◌, refl, inl, inr, String, true, ◌&&◌, List, [], ◌∷◌, some, length, arith, ◌==◌,
  if◌then◌else◌,
}
use asphallea.Prelude.Int.{ℤ, pos_part}
use asphallea.Prelude.Dict.{lookup, has_key}
use asphallea.Runtime.{Runtime}
use asphallea.Errors.{Result-cases}
use asphallea.Policy.{Policy}
use asphallea.Engine.{Engine, Call, new_engine, check}
use asphallea.Engine.Rules.{admitted, verdicts, all_hold, check-rule}
use asphallea.Engine.Counters.{calls_of, spent_of, check-policy, check-calls, check-spent}

-- The engine after the calls, each at its clock.
abbrev pub Schedule : Type 0
Schedule = List (Call × ℤ)

unfoldable pub run : Runtime → Schedule → Engine → Engine
run rt [] e = e
run rt ((c, clock) ∷ rest) e = run rt rest (check rt c clock e).1

-- The clocks at which calls of the tool went ahead, newest first, in front of earlier ones.
unfoldable pub admissions : Runtime → String → Schedule → Engine → List ℤ → List ℤ
admissions rt tool [] e past = past
admissions rt tool ((c, clock) ∷ rest) e past =
    let r = check rt c clock e in
    admissions rt tool rest r.1 (if admitted r.0 && c.tool == tool then clock ∷ past else past)

pub admitted-all_hold :
    (rt : Runtime) (c : Call) (clock : ℤ) (e : Engine)
    → admitted (check rt c clock e).0 ≡ true
    → all_hold (verdicts rt c clock e) ≡ true
admitted-all_hold rt c clock e h = elim (Result-cases (check rt c clock e).0) [
  | inl (d, r) ↦ ground (arith, check-rule rt c clock e r)
  | inr (x, r) ↦ ground arith
]

module _ (rt : Runtime) (tool : String) where
  module _ (c : Call) (clock : ℤ) (e : Engine) where
    step-calls_cap :
        {cap : ℤ}
        → lookup tool e.policy.max_calls ≡ some cap
        → calls_of e tool ≤ pos_part cap
        → calls_of (check rt c clock e).1 tool ≤ pos_part cap
    step-calls_cap limit h =
        ground (arith, check-calls rt c clock e tool, admitted-all_hold rt c clock e)

    step-spent_cap :
        {cap : ℤ}
        → lookup tool e.policy.spend_caps ≡ some cap
        → spent_of e tool ≤ pos_part cap
        → spent_of (check rt c clock e).1 tool ≤ pos_part cap
    step-spent_cap limit h =
        ground (arith, check-spent rt c clock e tool, admitted-all_hold rt c clock e)

  -- Over any sequence of calls to any tools, the call count of a tool grows by the number of calls of it
  -- that go ahead.
  calls_of-run :
      (calls : Schedule) (e : Engine) (past : List ℤ)
      → calls_of (run rt calls e) tool + length past
        ≡ calls_of e tool + length (admissions rt tool calls e past)
  unfolding run admissions
  calls_of-run [] e past = refl
  calls_of-run ((c, clock) ∷ rest) e past = ground (
    arith,
    check-calls rt c clock e tool,
    calls_of-run rest (check rt c clock e).1 past,
    calls_of-run rest (check rt c clock e).1 (clock ∷ past),
  )

  spent_of-run :
      (calls : Schedule) (e : Engine) (past : List ℤ)
      → has_key tool e.policy.spend_caps ≡ true
      → spent_of (run rt calls e) tool + length past
        ≡ spent_of e tool + length (admissions rt tool calls e past)
  unfolding run admissions
  spent_of-run [] e past h = refl
  spent_of-run ((c, clock) ∷ rest) e past h = ground (
    arith,
    check-policy rt c clock e,
    check-spent rt c clock e tool,
    spent_of-run rest (check rt c clock e).1 past,
    spent_of-run rest (check rt c clock e).1 (clock ∷ past),
  )

  run-calls_cap :
      (calls : Schedule) (e : Engine) {cap : ℤ}
      → lookup tool e.policy.max_calls ≡ some cap
      → calls_of e tool ≤ pos_part cap
      → calls_of (run rt calls e) tool ≤ pos_part cap
  unfolding run
  run-calls_cap [] e limit h = h
  run-calls_cap ((c, clock) ∷ rest) e {cap} limit h =
      run-calls_cap rest (check rt c clock e).1 {cap = cap}
        (ground (arith, check-policy rt c clock e)) (step-calls_cap c clock e limit h)

  run-spent_cap :
      (calls : Schedule) (e : Engine) {cap : ℤ}
      → lookup tool e.policy.spend_caps ≡ some cap
      → spent_of e tool ≤ pos_part cap
      → spent_of (run rt calls e) tool ≤ pos_part cap
  unfolding run
  run-spent_cap [] e limit h = h
  run-spent_cap ((c, clock) ∷ rest) e {cap} limit h =
      run-spent_cap rest (check rt c clock e).1 {cap = cap}
        (ground (arith, check-policy rt c clock e)) (step-spent_cap c clock e limit h)

  -- Over any sequence of calls to any tools against a fresh engine, no more calls of a tool go ahead
  -- than its `max_calls`, and none if that is negative.
  pub admissions-max_calls :
      (p : Policy) (calls : Schedule) {cap : ℤ}
      → lookup tool p.max_calls ≡ some cap
      → length (admissions rt tool calls (new_engine p) []) ≤ pos_part cap
  unfolding lookup
  admissions-max_calls p calls limit = omega (
    arith,
    run-calls_cap calls (new_engine p) limit (omega arith),
    calls_of-run calls (new_engine p) [],
  )

  -- Over any sequence of calls to any tools against a fresh engine, no more calls of a tool go ahead
  -- than its `spend_caps`, and none if that is negative.
  pub admissions-spend_cap :
      (p : Policy) (calls : Schedule) {cap : ℤ}
      → lookup tool p.spend_caps ≡ some cap
      → length (admissions rt tool calls (new_engine p) []) ≤ pos_part cap
  unfolding lookup
  admissions-spend_cap p calls limit = omega (
    arith,
    run-spent_cap calls (new_engine p) limit (omega arith),
    spent_of-run calls (new_engine p) [] (ground arith),
  )
