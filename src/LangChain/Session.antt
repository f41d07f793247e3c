-- ===== src/LangChain/Session.antt =====
-- Sequences of calls of tools that `guard_tools` of asphallea/integrations/langchain.py has wrapped over one
-- engine and one sink.
use asphallea.Prelude.{
  ==_iff, Bool-cases, inl, inr, Bool, List, String, [], arith, ℕ, suc, length, ◌+◌, ◌≡◌, ◌≤◌, ◌∷◌,
  true, some,
}
use asphallea.LangChain.{GuardedTool, Request, Tool, payload_of}
use asphallea.LangChain.Outcome.{run_entry_denied}
use asphallea.LangChain.Calls.{Shared, run_entry, check_of, decide_input, noted, settle_call}
use asphallea.Intercept.{Moment}
use asphallea.Engine.{check, new_engine}
use asphallea.Engine.Run.{Schedule, admissions, admissions-max_calls}
use asphallea.Engine.Rules.{admitted}
use asphallea.Audit.{AuditSink}
use asphallea.Errors.{Result-cases}
use asphallea.Runtime.{Runtime}
use asphallea.Prelude.Int.{ℤ, pos_part}
use asphallea.Policy.{Policy}
use asphallea.Prelude.Dict.{lookup}

-- A call of a wrapped tool, and when it is made.
pub record Use : Type 1 where
  pub tool : Tool
  pub guard : GuardedTool
  pub request : Request
  pub now : Moment
  pub state : tool.State

module _ (S : AuditSink) (rt : Runtime) where
  -- What one call leaves of the engine and the trail.
  abbrev pub after : Use → Shared S → Shared S
  after u s = (run_entry S rt u.tool u.guard u.request u.now s u.state).1

  -- Calls of which so many change the state of a tool that is wrapped under the name.
  pub data Changes (name : String) : List Use → Shared S → ℕ → Type 1 where
    over : {s : Shared S} → Changes name [] s 0
    other :
        {u : Use} {us : List Use} {s : Shared S} {n : ℕ}
        → Changes name us (after u s) n
        → Changes name (u ∷ us) s n
    changed :
        {u : Use} {us : List Use} {s : Shared S} {n : ℕ}
        → u.guard.name ≡ name
        → ((run_entry S rt u.tool u.guard u.request u.now s u.state).2 ≡ u.state → ⊥)
        → Changes name us (after u s) n
        → Changes name (u ∷ us) s (suc n)

  -- The checks that the calls ask of the engine.
  abbrev schedule : List Use → Schedule
  schedule [] = []
  schedule (u ∷ us) = (check_of rt u.guard (payload_of u.request), u.now.clock) ∷ schedule us

  abbrev answer_of : Use → Shared S → Bool
  answer_of u s =
      admitted (check rt (check_of rt u.guard (payload_of u.request)) u.now.clock s.engine).0

  after-engine :
      (u : Use) (s : Shared S)
      → (after u s).engine
        ≡ (check rt (check_of rt u.guard (payload_of u.request)) u.now.clock s.engine).1
  unfolding run_entry decide_input noted settle_call
  after-engine u s = ground (
    arith,
    Result-cases (check rt (check_of rt u.guard (payload_of u.request)) u.now.clock s.engine).0,
  )

  -- A call that changes the state of its tool has been admitted.
  changed-answer :
      (u : Use) (s : Shared S)
      → ((run_entry S rt u.tool u.guard u.request u.now s u.state).2 ≡ u.state → ⊥)
      → answer_of u s ≡ true
  unfolding decide_input noted
  changed-answer u s changes =
      elim (Bool-cases
        (admitted (decide_input S rt u.tool u.guard (payload_of u.request) u.now s).0)) [
          | inl allowed ↦ ground (
            arith,
            Result-cases
                (check rt (check_of rt u.guard (payload_of u.request)) u.now.clock s.engine).0,
          )
          | inr refused ↦
              absurd
                (changes (run_entry_denied S rt u.tool u.guard u.request u.now s u.state refused).1)
        ]

  Changes-admissions :
      (name : String) {us : List Use} {s : Shared S} {n : ℕ} (past : List ℤ)
      → Changes name us s n
      → n + length past ≤ length (admissions rt name (schedule us) s.engine past)
  unfolding admissions check_of
  Changes-admissions name past over = omega arith
  Changes-admissions name past (other {u} {us} {s} {n} rest) = ground (
    arith,
    after-engine u s,
    Changes-admissions name past rest,
    Changes-admissions name (u.now.clock ∷ past) rest,
  )
  Changes-admissions name past (changed {u} {us} {s} {n} own changes rest) = ground (
    arith,
    changed-answer u s changes,
    ==_iff u.guard.name name,
    after-engine u s,
    Changes-admissions name past rest,
    Changes-admissions name (u.now.clock ∷ past) rest,
  )

  -- However many tools share a fresh engine, and in whatever order their entry points are called, no more
  -- calls change the state of a tool that is wrapped under a name than the `max_calls` of that name, and none
  -- if that is negative.
  pub Changes-max_calls :
      (name : String) (p : Policy) {us : List Use} {s : Shared S} {n : ℕ} {cap : ℤ}
      → lookup name p.max_calls ≡ some cap
      → s.engine ≡ new_engine p
      → Changes name us s n
      → n ≤ pos_part cap
  Changes-max_calls name p {us} limit fresh calls =
      ground (
        arith,
        Changes-admissions name [] calls,
        admissions-max_calls rt name p (schedule us) limit,
      )
