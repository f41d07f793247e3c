-- ===== src/Engine/Threads.antt =====
-- `Engine.check` of asphallea/engine.py when threads share an engine: a call reads the clock before it
-- takes the lock, so it may wait with its reading while others go first.
pub mod Rate
pub mod Recovers
use asphallea.Prelude.{◌≡◌, Bool, String, List, [], ◌∷◌, ◌++◌, ◌&&◌, map, if◌then◌else◌, ◌==◌}
use asphallea.Prelude.Int.{ℤ, ◌≤ℤ◌}
use asphallea.Runtime.{Runtime}
use asphallea.Errors.{Result}
use asphallea.Policy.{Policy}
use asphallea.Decision.{Decision}
use asphallea.Engine.{Engine, Call, new_engine, check}
use asphallea.Engine.Rules.{admitted}
use asphallea.Engine.Run.{Schedule}

-- A pass of one call through the lock: what `time.monotonic()` gave before it, when the lock was taken,
-- and how the call ended.
pub record Section : Type 0 where
  pub call : Call
  pub clock : ℤ
  pub entered_at : ℤ
  pub result : Result Decision

-- `waiting`: the calls between `clock = ...` and `with self._lock`. The newest section is first.
pub record Threads : Type 0 where
  pub time : ℤ
  pub engine : Engine
  pub waiting : Schedule
  pub sections : List Section

-- What one thread, or the clock, does next. The lock is free between two sections.
pub data Step (rt : Runtime) (s : Threads) : Threads → Type 0 where
  -- Time passes.
  tick : (later : ℤ) → s.time ≤ℤ later → Step rt s (record s { time = later })
  -- A thread calls `check` and reads the clock.
  read_clock : (c : Call) → Step rt s (record s { waiting = (c, s.time) ∷ s.waiting })
  -- One of the waiting threads takes the lock, whichever it is, and goes through the section.
  section :
      (front back : Schedule) (c : Call) (clock : ℤ)
      → s.waiting ≡ front ++ (c, clock) ∷ back
      → Step rt s (record {
        time = s.time;
        engine = (check rt c clock s.engine).1;
        waiting = front ++ back;
        sections =
            record {
              call = c;
              clock = clock;
              entered_at = s.time;
              result = (check rt c clock s.engine).0;
            }
            ∷ s.sections;
      })

-- A fresh engine, and no thread at work.
abbrev pub at_start : Policy → ℤ → Threads
at_start p now = record { time = now; engine = new_engine p; waiting = []; sections = [] }

pub data Reach (rt : Runtime) (p : Policy) : Threads → Type 0 where
  start : (now : ℤ) → Reach rt p (at_start p now)
  next : {s t : Threads} → Reach rt p s → Step rt s t → Reach rt p t

-- Whether a section let a call of the tool go ahead.
abbrev pub grants : String → Section → Bool
grants tool x = admitted x.result && x.call.tool == tool

-- When the calls of the tool that went ahead took the lock, each with its clock, newest first.
abbrev pub granted : String → List Section → List (ℤ × ℤ)
granted tool [] = []
granted tool (x ∷ older) =
    let rest = granted tool older in if grants tool x then (x.entered_at, x.clock) ∷ rest else rest

-- The clocks of calls that went ahead.
abbrev pub clocks : List (ℤ × ℤ) → List ℤ
clocks = map (λ g. g.1)
