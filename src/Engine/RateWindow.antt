-- ===== src/Engine/RateWindow.antt =====
-- On the rate limit of asphallea/engine.py, over runs of checks.
use asphallea.Prelude.{
  ℕ, ◌≤◌, ◌≡◌, refl, String, Bool, not, ◌&&◌, List, [], ◌∷◌, some, length, count, count-append,
  arith, ◌==◌, if◌then◌else◌, true, inl, inr, Bool-cases,
}
use asphallea.Prelude.Int.{ℤ, ◌-ℤ◌, ◌≤ℤ◌, leb_ℤ, -ℤ-mono, pos_part}
use asphallea.Prelude.Dict.{lookup}
use asphallea.Runtime.{Runtime}
use asphallea.Policy.{Policy, RateLimit}
use asphallea.Engine.{Engine, Call, new_engine, check, drop_expired}
use asphallea.Engine.Rules.{admitted}
use asphallea.Engine.Counters.{
  window_of, live_window, check-policy, check-window_admitted, check-window_denied,
}
use asphallea.Engine.Run.{Schedule, admissions, admitted-all_hold}

-- Whether a clock lies after `s`.
abbrev pub after : ℤ → ℤ → Bool
after s t = not (leb_ℤ t s)

-- Of clocks, newest first: when each was added, at most `n` lay in the window that ends with it.
abbrev pub Spaced : ℤ → ℕ → List ℤ → Type 0
Spaced window n [] = Unit
Spaced window n (t ∷ older) = (count (after (t -ℤ window)) (t ∷ older) ≤ n) × Spaced window n older

-- No clock of the schedule lies before the one in front of it.
abbrev pub NonDecreasing : ℤ → Schedule → Type 0
NonDecreasing now [] = Unit
NonDecreasing now ((c, clock) ∷ rest) = (now ≤ℤ clock) × NonDecreasing clock rest

-- What is dropped at a cutoff lies in no window that begins there or later.
count-drop_expired :
    (cutoff s : ℤ) (window : List ℤ)
    → cutoff ≤ℤ s
    → count (after s) (drop_expired cutoff window) ≡ count (after s) window
unfolding drop_expired
count-drop_expired cutoff s [] h = refl
count-drop_expired cutoff s (t ∷ window) h = ground (arith, count-drop_expired cutoff s window)

count-le-length : (s : ℤ) (ts : List ℤ) → count (after s) ts ≤ length ts
count-le-length s [] = omega arith
count-le-length s (t ∷ ts) = ground (arith, count-le-length s ts)

-- The clocks that went ahead and the deque agree on every window that begins at `cutoff` or later.
abbrev pub Agrees : ℤ → List ℤ → List ℤ → Type 0
Agrees cutoff past window = (s : ℤ) → cutoff ≤ℤ s → count (after s) past ≡ count (after s) window

pub Agrees-later :
    (from later : ℤ) (past window : List ℤ)
    → from ≤ℤ later
    → Agrees from past window
    → Agrees later past window
Agrees-later from later past window h agrees s above = agrees s (omega arith)

module _ (rt : Runtime) (tool : String) (rl : RateLimit) where
  abbrev pub next_past : Call → ℤ → Engine → List ℤ → List ℤ
  next_past c clock e past =
      if admitted (check rt c clock e).0 && c.tool == tool then clock ∷ past else past

  -- At the call's own tool, the live events are what is left at the cutoff.
  live_window_lem :
      (c : Call) (clock : ℤ) (e : Engine)
      → lookup tool e.policy.rate_limits ≡ some rl
      → c.tool ≡ tool
      → live_window c clock e ≡ drop_expired (clock -ℤ rl.window_seconds) (window_of e tool)
  live_window_lem c clock e limit same = ground arith

  -- A check leaves the agreement about every window that its own cutoff does not reach into.
  pub step-Agrees :
      (c : Call) (clock : ℤ) (e : Engine) (past : List ℤ) (from : ℤ)
      → lookup tool e.policy.rate_limits ≡ some rl
      → clock -ℤ rl.window_seconds ≤ℤ from
      → Agrees from past (window_of e tool)
      → Agrees from (next_past c clock e past) (window_of (check rt c clock e).1 tool)
  step-Agrees c clock e past from limit later agrees s h =
      elim (Bool-cases (admitted (check rt c clock e).0)) [
        | inl yes_ ↦ ground (
          arith,
          agrees s,
          check-window_admitted rt c clock e tool,
          live_window_lem c clock e limit,
          count-append (after s) (live_window c clock e) (clock ∷ []),
          count-drop_expired (clock -ℤ rl.window_seconds) s (window_of e tool),
        )
        | inr no_ ↦ ground (
          arith,
          agrees s,
          check-window_denied rt c clock e tool,
          live_window_lem c clock e limit,
          count-drop_expired (clock -ℤ rl.window_seconds) s (window_of e tool),
        )
      ]

  -- A call that goes ahead still fits into every such window.
  pub step-room :
      (c : Call) (clock : ℤ) (e : Engine) (past : List ℤ) (from : ℤ)
      → lookup tool e.policy.rate_limits ≡ some rl
      → clock -ℤ rl.window_seconds ≤ℤ from
      → Agrees from past (window_of e tool)
      → (admitted (check rt c clock e).0 && c.tool == tool) ≡ true
      → count (after from) (clock ∷ past) ≤ pos_part rl.max_calls
  step-room c clock e past from limit later agrees goes = ground (
    arith,
    agrees from,
    admitted-all_hold rt c clock e,
    live_window_lem c clock e limit,
    count-drop_expired (clock -ℤ rl.window_seconds) from (window_of e tool),
    count-le-length from (live_window c clock e),
  )

  step-Spaced :
      (c : Call) (clock : ℤ) (e : Engine) (past : List ℤ)
      → lookup tool e.policy.rate_limits ≡ some rl
      → Agrees (clock -ℤ rl.window_seconds) past (window_of e tool)
      → Spaced rl.window_seconds (pos_part rl.max_calls) past
      → Spaced rl.window_seconds (pos_part rl.max_calls) (next_past c clock e past)
  step-Spaced c clock e past limit agrees spaced =
      ground (arith, step-room c clock e past (clock -ℤ rl.window_seconds) limit)

  admissions-Spaced :
      (calls : Schedule) (now : ℤ) (e : Engine) (past : List ℤ)
      → lookup tool e.policy.rate_limits ≡ some rl
      → NonDecreasing now calls
      → Agrees (now -ℤ rl.window_seconds) past (window_of e tool)
      → Spaced rl.window_seconds (pos_part rl.max_calls) past
      → Spaced rl.window_seconds (pos_part rl.max_calls) (admissions rt tool calls e past)
  unfolding admissions
  admissions-Spaced [] now e past limit ordered agrees spaced = spaced
  admissions-Spaced ((c, clock) ∷ rest) now e past limit (later, ordered) agrees spaced =
      let from : ℤ = clock -ℤ rl.window_seconds in
      let still : Agrees from past (window_of e tool) =
        Agrees-later _ _ past (window_of e tool) (-ℤ-mono _ _ rl.window_seconds later) agrees in
      admissions-Spaced rest clock (check rt c clock e).1 (next_past c clock e past)
        (ground (arith, check-policy rt c clock e)) ordered
        (step-Agrees c clock e past from limit (omega arith) still)
        (step-Spaced c clock e past limit still spaced)

  -- Over any sequence of calls to any tools against a fresh engine, at clocks that never go back: in
  -- the window that ends at a call of the tool that went ahead, at most `max_calls` calls of it went
  -- ahead, and none if that is negative.
  pub admissions-rate_limit :
      (p : Policy) (now : ℤ) (calls : Schedule)
      → lookup tool p.rate_limits ≡ some rl
      → NonDecreasing now calls
      → Spaced rl.window_seconds
          (pos_part rl.max_calls)
          (admissions rt tool calls (new_engine p) [])
  unfolding lookup
  admissions-rate_limit p now calls limit ordered =
      admissions-Spaced calls now (new_engine p) [] limit ordered (λ s h. refl) tt
