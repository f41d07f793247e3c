-- ===== src/Engine/Threads/Recovers.antt =====
-- On threads that share an engine of asphallea/engine.py: the end of a denial by the rate limit.
use asphallea.Prelude.{
  ◌≤◌, ◌≡◌, ◌≢◌, ◌∙◌, refl, String, Bool, List, [], ◌∷◌, some, count, count-append, arith, not, all,
  ◌==◌, str_dec, true, inl, inr, Bool-cases,
}
use asphallea.Prelude.Int.{ℤ, pos, ◌-ℤ◌, ◌≤ℤ◌}
use asphallea.Prelude.Dict.{lookup}
use asphallea.Runtime.{Runtime}
use asphallea.Errors.{ok}
use asphallea.Policy.{Policy, RateLimit}
use asphallea.Decision.{Decision}
use asphallea.Engine.{Engine, Call, check, drop_expired}
use asphallea.Engine.Rules.{admitted, check-rule}
use asphallea.Engine.Counters.{
  window_of, live_window, check-policy, check-window_admitted, check-window_denied,
}
use asphallea.Engine.RateWindow.{after, next_past}
use asphallea.Engine.Threads.{
  Threads, tick, read_clock, section, Reach, start, next, granted, clocks,
}

count-drop_expired_le :
    (q : ℤ → Bool) (cutoff : ℤ) (window : List ℤ)
    → count q (drop_expired cutoff window) ≤ count q window
unfolding drop_expired
count-drop_expired_le q cutoff [] = omega arith
count-drop_expired_le q cutoff (t ∷ window) = ground (arith, count-drop_expired_le q cutoff window)

drop_expired-all :
    (cutoff : ℤ) (window : List ℤ)
    → count (after cutoff) window ≡ 0
    → drop_expired cutoff window ≡ []
unfolding drop_expired
drop_expired-all cutoff [] h = refl
drop_expired-all cutoff (t ∷ window) h = ground (arith, drop_expired-all cutoff window)

-- Every event of the window is the clock of a call that went ahead, and none is there twice.
abbrev Within : List ℤ → List ℤ → Type 0
Within window past = (q : ℤ → Bool) → count q window ≤ count q past

module _ (rt : Runtime) (tool : String) (rl : RateLimit) where
  step-Within :
      (c : Call) (clock : ℤ) (e : Engine) (past : List ℤ)
      → lookup tool e.policy.rate_limits ≡ some rl
      → Within (window_of e tool) past
      → Within (window_of (check rt c clock e).1 tool) (next_past rt tool rl c clock e past)
  step-Within c clock e past limit within q = elim (Bool-cases (admitted (check rt c clock e).0)) [
    | inl yes_ ↦ ground (
      arith,
      within q,
      check-window_admitted rt c clock e tool,
      count-append q (live_window c clock e) (clock ∷ []),
      count-drop_expired_le q (clock -ℤ rl.window_seconds) (window_of e tool),
    )
    | inr no_ ↦ ground (
      arith,
      within q,
      check-window_denied rt c clock e tool,
      count-drop_expired_le q (clock -ℤ rl.window_seconds) (window_of e tool),
    )
  ]

  Reach-Within :
      {p : Policy} {s : Threads}
      → lookup tool p.rate_limits ≡ some rl
      → Reach rt p s
      → (s.engine.policy ≡ p) × Within (window_of s.engine tool) (clocks (granted tool s.sections))
  unfolding lookup
  Reach-Within limit (start now) = (refl, λ q. omega arith)
  Reach-Within limit (next r (tick later h)) = Reach-Within limit r
  Reach-Within limit (next r (read_clock c)) = Reach-Within limit r
  Reach-Within limit (next {s} r (section front back c clock here)) =
      let (same, within) = Reach-Within limit r in
      (
        check-policy rt c clock s.engine ∙ same,
        λ q. ground (arith, step-Within c clock s.engine _ (rw same limit) within q),
      )

  other_rules :
      all
        (λ rule. not (rule == "rate_limit"))
        ("tool_allowlist" ∷ "read_paths" ∷ "write_paths" ∷ "network" ∷ "max_calls" ∷ "spend_cap"
          ∷ "allow" ∷ [])
      ≡ true
  unfolding str_dec
  other_rules = refl

  -- In every interleaving, a call of a tool whose rate limit allows any call at all is not denied by it once
  -- every call of the tool that went ahead read its clock no later than the cutoff of this one.
  pub Reach-recovers :
      {p : Policy} {s : Threads} (c : Call) (clock : ℤ) {d : Decision}
      → lookup tool p.rate_limits ≡ some rl
      → pos 1 ≤ℤ rl.max_calls
      → Reach rt p s
      → c.tool ≡ tool
      → count (after (clock -ℤ rl.window_seconds)) (clocks (granted tool s.sections)) ≡ 0
      → (check rt c clock s.engine).0 ≡ ok d
      → d.rule ≢ "rate_limit"
  Reach-recovers {p} {s} c clock {d} limit some_ r same old answer =
      let (own, within) = Reach-Within limit r in
      ground (
        arith,
        other_rules,
        check-rule rt c clock s.engine answer,
        drop_expired-all (clock -ℤ rl.window_seconds) (window_of s.engine tool)
            (omega (arith, within (after (clock -ℤ rl.window_seconds)))),
      )
