-- ===== src/Sandbox/Keeps.antt =====
-- Predicates on the commands that are started, which the actions of asphallea/sandbox.py keep.
use asphallea.Prelude.{List, String, [], ◌∷◌, ◌++◌, Bool, Option, arith}
use asphallea.Sandbox.Probe.{Host, capabilities, detect_starts}
use asphallea.Sandbox.Processes.{
  overran, effects, finished, unread, unread_killed, lift, exec, Outcome, Processes, completed,
  kill_tree,
}
use asphallea.Sandbox.Contained.{audit_record, in_folder}
use asphallea.Sandbox.Run.{check_sandbox}
use asphallea.Sandbox.World.{
  continue, printed, warned, made_folder, removed_folder, launched, ◌>>=◌, World, Action, Effect,
  killed_group, killed_process, wrote_policy,
}
use asphallea.Audit.{AuditSink, AuditRecord}
use asphallea.Errors.{Result, ok, raise}
use asphallea.Runtime.{Runtime}
use asphallea.Prelude.Int.{ℤ}

-- What was done satisfies `Q`, and stays so behind what satisfies `Step`.
pub record Grows (Q Step : List Effect → Type 0) : Type 0 where
  pub append : (es fs : List Effect) → Q es → Step fs → Q (es ++ fs)

-- Every command that was started satisfies `P`.
abbrev pub LaunchedOnly : (List String → Type 0) → List Effect → Type 0
LaunchedOnly P [] = Unit
LaunchedOnly P (launched argv ∷ es) = P argv × LaunchedOnly P es
LaunchedOnly P (_ ∷ es) = LaunchedOnly P es

LaunchedOnly-append :
    (P : List String → Type 0) (es fs : List Effect)
    → LaunchedOnly P es
    → LaunchedOnly P fs
    → LaunchedOnly P (es ++ fs)
LaunchedOnly-append P [] fs h k = k
LaunchedOnly-append P (launched argv ∷ es) fs (p, h) k = (p, LaunchedOnly-append P es fs h k)
LaunchedOnly-append P (warned m ∷ es) fs h k = LaunchedOnly-append P es fs h k
LaunchedOnly-append P (printed m ∷ es) fs h k = LaunchedOnly-append P es fs h k
LaunchedOnly-append P (made_folder ∷ es) fs h k = LaunchedOnly-append P es fs h k
LaunchedOnly-append P (removed_folder ∷ es) fs h k = LaunchedOnly-append P es fs h k
LaunchedOnly-append P (wrote_policy path d ∷ es) fs h k = LaunchedOnly-append P es fs h k
LaunchedOnly-append P (killed_group ∷ es) fs h k = LaunchedOnly-append P es fs h k
LaunchedOnly-append P (killed_process ∷ es) fs h k = LaunchedOnly-append P es fs h k

pub LaunchedOnly-Grows : (P : List String → Type 0) → Grows (LaunchedOnly P) (LaunchedOnly P)
LaunchedOnly-Grows P = record { append = LaunchedOnly-append P }

LaunchedOnly-kill_tree : (P : List String → Type 0) (ps : Processes) → LaunchedOnly P (kill_tree ps)
unfolding kill_tree
LaunchedOnly-kill_tree P ps = ground arith

-- The action keeps `Q` of what was done, whether it returns or raises.
pub record Keeps {S : AuditSink} (Q : List Effect → Type 0) {A : Type 0} (m : Action S A)
    : Type 0 where
  pub at : (w : World S) → Q w.trace → Q (m w).1.trace

module _ {S : AuditSink} (Q : List Effect → Type 0) where
  pub Keeps-continue :
      {A B : Type 0} (r : Result A × World S) (f : A → Action S B)
      → Q r.1.trace
      → ((a : A) → Keeps Q (f a))
      → Q (continue r f).1.trace
  Keeps-continue (ok a, w) f h kf = (kf a).at w h
  Keeps-continue (raise x, w) f h kf = h

  pub Keeps-bind :
      {A B : Type 0} (m : Action S A) (f : A → Action S B)
      → Keeps Q m
      → ((a : A) → Keeps Q (f a))
      → Keeps Q (m >>= f)
  Keeps-bind m f km kf = record { at = λ w h. Keeps-continue (m w) f (km.at w h) kf }

  pub Keeps-lift : {A : Type 0} (r : Result A) → Keeps {S = S} Q (lift r)
  Keeps-lift r = record { at = λ w h. h }

  pub Keeps-audit_record : (r : AuditRecord) → Keeps {S = S} Q (audit_record r)
  unfolding audit_record
  Keeps-audit_record r = record { at = λ w h. ground arith }

  pub Keeps-check_sandbox :
      (rt : Runtime) (tool : String) (clock : ℤ) → Keeps {S = S} Q (check_sandbox rt tool clock)
  unfolding check_sandbox
  Keeps-check_sandbox rt tool clock = record { at = λ w h. h }

  module _ (Step : List Effect → Type 0) (grows : Grows Q Step) where
    pub Keeps-capabilities :
        (rt : Runtime) (host : Host) (refresh : Bool)
        → Step (detect_starts host)
        → Keeps {S = S} Q (capabilities rt host refresh)
    unfolding capabilities
    Keeps-capabilities rt host refresh starts = record {
      at = λ w h. ground (arith, grows.append w.trace (detect_starts host) h starts);
    }

    pub Keeps-effects : (es : List Effect) → Step es → Keeps {S = S} Q (effects es)
    Keeps-effects es k = record { at = λ w h. grows.append w.trace es h k }

    Keeps-completed :
        (rt : Runtime) (ps : Processes) (timeout : Option ℤ) (outcome : Outcome)
        → Step (kill_tree ps)
        → Keeps {S = S} Q (completed rt ps timeout outcome)
    unfolding completed
    Keeps-completed rt ps timeout (finished code out err) k = record { at = λ w h. h }
    Keeps-completed rt ps timeout (overran out err) k = record {
      at = λ w h. grows.append w.trace (kill_tree ps) h k;
    }
    Keeps-completed rt ps timeout (unread x) k = record { at = λ w h. h }
    Keeps-completed rt ps timeout (unread_killed x) k = record {
      at = λ w h. grows.append w.trace (kill_tree ps) h k;
    }

    pub Keeps-exec :
        (rt : Runtime) (ps : Processes) (argv : List String) (timeout : Option ℤ)
        → Step (launched argv ∷ [])
        → Step (kill_tree ps)
        → Keeps {S = S} Q (exec rt ps argv timeout)
    unfolding exec
    Keeps-exec rt ps argv timeout starts kills =
        Keeps-bind (lift (ps.popen argv timeout)) _ (Keeps-lift (ps.popen argv timeout)) λ outcome.
          Keeps-bind (effects (launched argv ∷ [])) _ (Keeps-effects (launched argv ∷ []) starts)
            λ _. Keeps-completed rt ps timeout outcome kills

    pub Keeps-in_folder :
        {A : Type 0} (body : Action S A)
        → Keeps Q body
        → Step (made_folder ∷ [])
        → Step (removed_folder ∷ [])
        → Keeps Q (in_folder body)
    unfolding in_folder
    Keeps-in_folder body kb made removed = record {
      at = λ w h.
          grows.append _ (removed_folder ∷ [])
            ((Keeps-bind (effects (made_folder ∷ [])) (λ _. body) (Keeps-effects _ made) λ _. kb).at
              w h)
            removed;
    }

module _ {S : AuditSink} (P : List String → Type 0) where
  pub LaunchedOnly-effects :
      (es : List Effect) → LaunchedOnly P es → Keeps {S = S} (LaunchedOnly P) (effects es)
  LaunchedOnly-effects = Keeps-effects (LaunchedOnly P) (LaunchedOnly P) (LaunchedOnly-Grows P)

  pub LaunchedOnly-exec :
      (rt : Runtime) (ps : Processes) (argv : List String) (timeout : Option ℤ)
      → P argv
      → Keeps {S = S} (LaunchedOnly P) (exec rt ps argv timeout)
  LaunchedOnly-exec rt ps argv timeout p =
      Keeps-exec (LaunchedOnly P) (LaunchedOnly P) (LaunchedOnly-Grows P) rt ps argv timeout (p, tt)
        (LaunchedOnly-kill_tree P ps)

  pub LaunchedOnly-in_folder :
      {A : Type 0} (body : Action S A)
      → Keeps (LaunchedOnly P) body
      → Keeps (LaunchedOnly P) (in_folder body)
  LaunchedOnly-in_folder body kb =
      Keeps-in_folder (LaunchedOnly P) (LaunchedOnly P) (LaunchedOnly-Grows P) body kb tt tt

pub ruleset keeps_rules = (
  Keeps-bind, Keeps-lift, Keeps-audit_record, Keeps-check_sandbox, LaunchedOnly-effects,
  LaunchedOnly-exec, LaunchedOnly-in_folder,
)
