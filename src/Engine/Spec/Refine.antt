-- ===== src/Engine/Spec/Refine.antt =====
-- The engine of asphallea/engine.py refines its specification.
use asphallea.Prelude.{
  refl, String, ◌∷◌, length, Option-cases, arith, inl, inr, some, true, if◌then◌else◌, ◌≡◌,
  Bool-cases, Option, [], none, ◌==◌, ◌&&◌,
}
use asphallea.Engine.Spec.{
  answers, History, clocks, spec_verdicts, spec_check, verdict_of, within_rate, spec_run,
}
use asphallea.Engine.Rules.{below, admitted, verdicts, max_rate, check-rule}
use asphallea.Engine.{Engine, Call, check, check_access, check_budget, new_engine}
use asphallea.Engine.Counters.{
  calls_of, spent_of, window_of, live_window, check-policy, check-calls, check-spent,
  check-window_admitted, check-window_denied,
}
use asphallea.Engine.RateWindow.{Agrees-later, Agrees, NonDecreasing, step-Agrees}
use asphallea.Engine.Spec.Window.{
  IsOrdered, length-drop_expired, IsOrdered-append, IsOrdered-later, drop_expired-IsOrdered,
}
use asphallea.Prelude.Int.{ -ℤ-mono, ℤ, ◌-ℤ◌, ◌≤ℤ◌}
use asphallea.Policy.{RateLimit, Policy}
use asphallea.Runtime.{Runtime}
use asphallea.Prelude.Dict.{has_key, lookup}
use asphallea.Decision.{Decision, all_passed}
use asphallea.Errors.{Exception, Result-cases, ok, raise}
use asphallea.Engine.Run.{Schedule}

-- The counters stand for the history, at a time that no clock in it exceeds.
record Stands (now : ℤ) (e : Engine) (history : History) : Type 0 where
  calls : (tool : String) → calls_of e tool ≡ length (clocks tool history)
  spent :
      (tool : String)
      → has_key tool e.policy.spend_caps ≡ true
      → spent_of e tool ≡ length (clocks tool history)
  ordered : (tool : String) → IsOrdered now (window_of e tool)
  window :
      (tool : String) (rl : RateLimit)
      → lookup tool e.policy.rate_limits ≡ some rl
      → Agrees (now -ℤ rl.window_seconds) (clocks tool history) (window_of e tool)

-- The history after a check.
abbrev later_history : Runtime → Call → ℤ → Engine → History → History
later_history rt c clock e history =
    if admitted (check rt c clock e).0 then (c.tool, clock) ∷ history else history

module _ (rt : Runtime) (c : Call) (now clock : ℤ) (e : Engine) (history : History)
    (s : Stands now e history) (h : now ≤ℤ clock) where
  cutoff_later : (rl : RateLimit) → now -ℤ rl.window_seconds ≤ℤ clock -ℤ rl.window_seconds
  cutoff_later rl = -ℤ-mono now clock rl.window_seconds (omega arith)

  rate_verdict :
      within_rate clock (lookup c.tool e.policy.rate_limits) (clocks c.tool history)
      ≡ below (length (live_window c clock e)) (max_rate (lookup c.tool e.policy.rate_limits))
  rate_verdict = elim (Option-cases (lookup c.tool e.policy.rate_limits)) [
    | inl unlimited ↦ ground arith
    | inr (rl, limit) ↦ ground (
      arith,
      s.window c.tool rl limit (clock -ℤ rl.window_seconds) (cutoff_later rl),
      length-drop_expired (clock -ℤ rl.window_seconds) now (window_of e c.tool) (s.ordered c.tool),
    )
  ]

  spend_verdict :
      below (length (clocks c.tool history)) (lookup c.tool e.policy.spend_caps)
      ≡ below (spent_of e c.tool) (lookup c.tool e.policy.spend_caps)
  spend_verdict = ground (arith, s.spent c.tool)

  verdicts-spec_verdicts : spec_verdicts rt e.policy c clock history ≡ verdicts rt c clock e
  verdicts-spec_verdicts = rw (rate_verdict, spend_verdict, s.calls c.tool) refl

  check_stopped :
      (x : Exception) → check_access rt e.policy c ≡ raise x → (check rt c clock e).0 ≡ raise x
  unfolding check
  check_stopped x stopped = ground arith

  check_answered :
      (o : Option Decision)
      → check_access rt e.policy c ≡ ok o
      → (d : Decision) × ((check rt c clock e).0 ≡ ok d)
  unfolding check
  check_answered (some d) answered = (d, ground arith)
  check_answered none answered = elim (Option-cases (check_budget rt c.tool clock e).0) [
    | inl passed ↦ (all_passed, ground arith)
    | inr (d, stopped) ↦ (d, ground arith)
  ]

  check-spec_check : spec_check rt e.policy c clock history ≡ verdict_of (check rt c clock e).0
  unfolding spec_check
  check-spec_check = elim (Result-cases (check_access rt e.policy c)) [
    | inr (x, stopped) ↦ ground (arith, check_stopped x stopped)
    | inl (o, answered) ↦
        let (d, r) = check_answered o answered in
        ground (arith, check-rule rt c clock e r, verdicts-spec_verdicts)
  ]

  clocks_later :
      (tool : String)
      → clocks tool (later_history rt c clock e history) ≡ (
          if admitted (check rt c clock e).0 && c.tool == tool
          then clock ∷ clocks tool history
          else clocks tool history)
  clocks_later tool = ground arith

  live-IsOrdered : (tool : String) → c.tool ≡ tool → IsOrdered now (live_window c clock e)
  live-IsOrdered tool same = elim (Option-cases (lookup c.tool e.policy.rate_limits)) [
    | inl unlimited ↦ rw unlimited (s.ordered c.tool)
    | inr (rl, limit) ↦ rw limit (
        drop_expired-IsOrdered (clock -ℤ rl.window_seconds) now (window_of e c.tool)
          (s.ordered c.tool))
  ]

  window_of-IsOrdered : (tool : String) → IsOrdered clock (window_of (check rt c clock e).1 tool)
  window_of-IsOrdered tool = elim (Bool-cases (admitted (check rt c clock e).0)) [
    | inl went ↦ ground (
      arith,
      check-window_admitted rt c clock e tool went,
      s.ordered tool,
      live-IsOrdered tool,
      IsOrdered-append now clock (live_window c clock e),
      IsOrdered-later now clock (window_of e tool),
    )
    | inr stayed ↦ ground (
      arith,
      check-window_denied rt c clock e tool stayed,
      s.ordered tool,
      live-IsOrdered tool,
      IsOrdered-later now clock (window_of e tool),
      IsOrdered-later now clock (live_window c clock e),
    )
  ]

  window_later :
      (tool : String) (rl : RateLimit)
      → lookup tool e.policy.rate_limits ≡ some rl
      → Agrees
          (clock -ℤ rl.window_seconds)
          (clocks tool (later_history rt c clock e history))
          (window_of (check rt c clock e).1 tool)
  window_later tool rl limit = rw (clocks_later tool) (
      step-Agrees rt tool rl c clock e (clocks tool history) (clock -ℤ rl.window_seconds) limit
        (omega arith)
        (Agrees-later (now -ℤ rl.window_seconds) (clock -ℤ rl.window_seconds) (clocks tool history)
          (window_of e tool) (cutoff_later rl) (s.window tool rl limit)))

  Stands-later : Stands clock (check rt c clock e).1 (later_history rt c clock e history)
  Stands-later = record {
    calls = λ tool. ground (arith, check-calls rt c clock e tool, s.calls tool);
    spent = λ tool capped.
        ground (arith, check-policy rt c clock e, check-spent rt c clock e tool, s.spent tool);
    ordered = window_of-IsOrdered;
    window = λ tool rl limit. window_later tool rl (ground (arith, check-policy rt c clock e));
  }

answers_refine :
    (rt : Runtime) (calls : Schedule) (now : ℤ) (e : Engine) (history : History)
    → Stands now e history
    → NonDecreasing now calls
    → answers rt calls e ≡ spec_run rt e.policy calls history
unfolding answers spec_run
answers_refine rt [] now e history s ordered = refl
answers_refine rt ((c, clock) ∷ rest) now e history s (h, ordered) = ground (
  arith,
  check-policy rt c clock e,
  check-spec_check rt c now clock e history s h,
  answers_refine rt rest clock (check rt c clock e).1 (later_history rt c clock e history)
      (Stands-later rt c now clock e history s h) ordered,
)

-- Over any sequence of calls to any tools against a fresh engine, at clocks that never go back, the
-- engine answers each call as the specification does: with the exception of the access rules if they
-- raise, and else by the first of the seven rules that the call fails, where the limits count the calls
-- of the tool that were allowed before, all of them or those in the window that ends at the clock.
pub answers-spec_run :
    (rt : Runtime) (p : Policy) (now : ℤ) (calls : Schedule)
    → NonDecreasing now calls
    → answers rt calls (new_engine p) ≡ spec_run rt p calls []
unfolding lookup
answers-spec_run rt p now calls ordered =
    answers_refine rt calls now (new_engine p) []
      (record {
        calls = λ tool. refl;
        spent = λ tool capped. refl;
        ordered = λ tool. tt;
        window = λ tool rl limit s h. refl;
      })
      ordered
