-- ===== src/Engine/Threads/Rate.antt =====
-- On threads that share an engine of asphallea/engine.py: the rate limit, in every interleaving.
use asphallea.Prelude.{ℕ, ◌≤◌, ◌≡◌, ◌∙◌, refl, sym, String, List, [], ◌∷◌, ◌++◌, some, count, arith}
use asphallea.Prelude.Int.{ℤ, ◌-ℤ◌, ◌≤ℤ◌, -ℤ-mono, pos_part}
use asphallea.Prelude.Dict.{lookup}
use asphallea.Runtime.{Runtime}
use asphallea.Policy.{Policy, RateLimit}
use asphallea.Engine.{Call}
use asphallea.Engine.Counters.{window_of, check-policy}
use asphallea.Engine.Run.{Schedule}
use asphallea.Engine.RateWindow.{after, Agrees, Agrees-later, step-Agrees, step-room}
use asphallea.Engine.Threads.{
  Threads, Step, tick, read_clock, section, Reach, start, next, granted, clocks,
}

-- Of the calls that went ahead, newest first: when each took the lock, at most `n` of those so far had
-- read the clock within the window that ended then.
abbrev pub Paced : ℤ → ℕ → List (ℤ × ℤ) → Type 0
Paced window n [] = Unit
Paced window n ((entered_at, clock) ∷ older) =
    (count (after (entered_at -ℤ window)) (clock ∷ clocks older) ≤ n) × Paced window n older

-- No clock of a waiting call is ahead of the time.
abbrev Past : ℤ → Schedule → Type 0
Past time [] = Unit
Past time ((c, clock) ∷ rest) = (clock ≤ℤ time) × Past time rest

Past-later : (now later : ℤ) (calls : Schedule) → now ≤ℤ later → Past now calls → Past later calls
Past-later now later [] h past = tt
Past-later now later ((c, clock) ∷ rest) h (here, past) =
    (omega arith, Past-later now later rest h past)

Past-split :
    (time : ℤ) (front back : Schedule) (c : Call) (clock : ℤ)
    → Past time (front ++ (c, clock) ∷ back)
    → (clock ≤ℤ time) × Past time (front ++ back)
Past-split time [] back c clock past = past
Past-split time (w ∷ front) back c clock (here, past) =
    let (now, rest) = Past-split time front back c clock past in (now, (here, rest))

module _ (rt : Runtime) (p : Policy) (tool : String) (rl : RateLimit) where
  -- What every reachable state keeps.
  record Inv (s : Threads) : Type 0 where
    policy : s.engine.policy ≡ p
    waiting : Past s.time s.waiting
    agrees :
        Agrees
          (s.time -ℤ rl.window_seconds)
          (clocks (granted tool s.sections))
          (window_of s.engine tool)
    paced : Paced rl.window_seconds (pos_part rl.max_calls) (granted tool s.sections)

  step-Inv : {s t : Threads} → lookup tool p.rate_limits ≡ some rl → Step rt s t → Inv s → Inv t
  step-Inv limit (tick later h) inv = record {
    policy = inv.policy;
    waiting = Past-later _ _ _ h inv.waiting;
    agrees = Agrees-later _ _ _ _ (-ℤ-mono _ _ rl.window_seconds h) inv.agrees;
    paced = inv.paced;
  }
  step-Inv limit (read_clock c) inv = record {
    policy = inv.policy;
    waiting = (omega arith, inv.waiting);
    agrees = inv.agrees;
    paced = inv.paced;
  }
  step-Inv {s} limit (section front back c clock here) inv =
      let (now, others) = Past-split s.time front back c clock (rw (sym here) inv.waiting) in
      let from : ℤ = s.time -ℤ rl.window_seconds in
      let limited : lookup tool s.engine.policy.rate_limits ≡ some rl = rw inv.policy limit in
      let reach : clock -ℤ rl.window_seconds ≤ℤ from = -ℤ-mono _ _ rl.window_seconds now in
      record {
        policy = check-policy rt c clock s.engine ∙ inv.policy;
        waiting = others;
        agrees =
            ground (arith, step-Agrees rt tool rl c clock s.engine _ from limited reach inv.agrees);
        paced = ground (
          arith,
          inv.paced,
          step-room rt tool rl c clock s.engine _ from limited reach inv.agrees,
        );
      }

  Reach-Inv : {s : Threads} → lookup tool p.rate_limits ≡ some rl → Reach rt p s → Inv s
  unfolding lookup
  Reach-Inv limit (start now) = record {
    policy = refl;
    waiting = tt;
    agrees = λ s h. refl;
    paced = tt;
  }
  Reach-Inv limit (next r st) = step-Inv limit st (Reach-Inv limit r)

  -- In every interleaving of threads against a fresh engine, though calls read the clock before the lock and
  -- may take it in another order: when a call of the tool goes ahead, at most `max_calls` of the calls of it
  -- that went ahead until then have read the clock within the window that ends at that moment.
  pub Reach-Paced :
      {s : Threads}
      → lookup tool p.rate_limits ≡ some rl
      → Reach rt p s
      → Paced rl.window_seconds (pos_part rl.max_calls) (granted tool s.sections)
  Reach-Paced limit r = (Reach-Inv limit r).paced
