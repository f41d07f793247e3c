-- ===== src/Sandbox/Results.antt =====
-- On `run` of asphallea/sandbox.py: what a result says of itself.
use asphallea.Prelude.{
  List, String, arith, false, refl, true, ◌≡◌, ◌⊎◌, Option, none, some, [], ◌∷◌,
}
use asphallea.Prelude.Dict.{Dict}
use asphallea.Value.{Value}
use asphallea.Sandbox.Processes.{Completed, finished, lift, Outcome, overran, Processes}
use asphallea.Prelude.Int.{pos, ℤ}
use asphallea.Sandbox.Contained.{Options, SandboxResult, contained_argv}
use asphallea.Sandbox.Capabilities.{Capabilities}
use asphallea.Sandbox.World.{Action, Effect, World, continue, ◌>>=◌, launched}
use asphallea.Audit.{AuditSink}
use asphallea.Errors.{Exception, Result, ok, raise}
use asphallea.Policy.{Policy}
use asphallea.Runtime.{Runtime}
use asphallea.Decision.{Decision}

-- The command line that was started last.
abbrev pub last_launch : List Effect → Option (List String)
last_launch [] = none
last_launch (launched argv ∷ es) = elim (last_launch es) [
  | none ↦ some argv
  | some next ↦ some next
]
last_launch (_ ∷ es) = last_launch es

abbrev later : Option (List String) → Option (List String) → Option (List String)
later first none = first
later first (some argv) = some argv

-- What the end of a process shows: its exit code and output, or that it overran.
abbrev pub Reports : Outcome → ℤ → String → String → Type 0
Reports (finished code out err) code' out' err' = (code' ≡ code) × (out' ≡ out) × (err' ≡ err)
Reports (overran out err) code' out' err' = (code' ≡ pos 124) × (out' ≡ out)
Reports _ code' out' err' = ⊥

-- The command was started last, and this is what came of it.
abbrev pub Ran : Processes → Option ℤ → List String → ℤ → String → String → List Effect → Type 0
Ran ps timeout argv code out err es =
    (last_launch es ≡ some argv)
    × (outcome : Outcome) × (ps.popen argv timeout ≡ ok outcome)
    × Reports outcome code out err

-- A result says that it is contained, and the core was started on the command, or that it is degraded, as
-- the caller allowed, and the bare command was started; the exit code and the output are of that process.
abbrev pub IsHonest : Processes → Options → List String → SandboxResult → List Effect → Type 0
IsHonest ps o command r es =
    (r.command ≡ command)
    × (((r.contained ≡ true)
          × (r.degraded ≡ false)
          × (binary : String) × Ran ps o.timeout (contained_argv ps command binary) r.returncode
              r.stdout r.stderr es)
        ⊎ ((r.contained ≡ false)
            × (r.degraded ≡ true)
            × (o.allow_degraded ≡ true)
            × Ran ps o.timeout command r.returncode r.stdout r.stderr es))

-- What holds of what an action returns and of what has been done by then, if it returns.
pub record Returns {S : AuditSink} {A : Type 0} (Q : A → List Effect → Type 0) (m : Action S A)
    : Type 0 where
  pub at : (w : World S) {a : A} → (m w).0 ≡ ok a → Q a (m w).1.trace

module _ {S : AuditSink} {A B : Type 0} (R : A → List Effect → Type 0)
    (Q : B → List Effect → Type 0) where
  continue_returns :
      (r : Result A × World S) (f : A → Action S B)
      → ((a : A) → r.0 ≡ ok a → R a r.1.trace)
      → ((a : A) (w : World S) (b : B) → R a w.trace → (f a w).0 ≡ ok b → Q b (f a w).1.trace)
      → {b : B} → (continue r f).0 ≡ ok b
      → Q b (continue r f).1.trace
  continue_returns (ok a, w) f first each {b} h = each a w b (first a refl) h
  continue_returns (raise x, w) f first each {b} h = absurd (ground arith)

  Returns-then :
      (m : Action S A) (f : A → Action S B)
      → Returns R m
      → ((a : A) (w : World S) (b : B) → R a w.trace → (f a w).0 ≡ ok b → Q b (f a w).1.trace)
      → Returns Q (m >>= f)
  Returns-then m f first each = record {
    at = λ w h. continue_returns (m w) f (λ a. first.at w) each h;
  }

module _ {S : AuditSink} {A B : Type 0} (Q : B → List Effect → Type 0) where
  Returns-bind :
      (m : Action S A) (f : A → Action S B) → ((a : A) → Returns Q (f a)) → Returns Q (m >>= f)
  Returns-bind m f each =
      Returns-then (λ a es. Unit {0}) Q m f (record { at = λ w h. tt })
        λ a w b held h. (each a).at w h

module _ {S : AuditSink} {B : Type 0} (Q : B → List Effect → Type 0) where
  Returns-raise : (x : Exception) → Returns {S = S} Q (lift (raise x))
  Returns-raise x = record { at = λ w h. absurd (ground arith) }

abbrev RanTo : Processes → Option ℤ → List String → Completed → List Effect → Type 0
RanTo ps timeout argv proc es = Ran ps timeout argv proc.returncode proc.stdout proc.stderr es

ruleset returns_rules = (Returns-bind, Returns-raise)
