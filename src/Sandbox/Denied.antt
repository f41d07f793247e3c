-- ===== src/Sandbox/Denied.antt =====
-- On `run` of asphallea/sandbox.py: a denial of the policy tier.
use asphallea.Prelude.{List, Option-cases, String, arith, false, inl, inr, none, some, ◌≡◌, ◌⊎◌}
use asphallea.Engine.{check}
use asphallea.Sandbox.Run.{run, after_check, check_sandbox, sandbox_call}
use asphallea.Sandbox.Contained.{Options, audit_record, sandbox_record}
use asphallea.Sandbox.Processes.{Processes}
use asphallea.Sandbox.World.{World}
use asphallea.Audit.{AuditSink}
use asphallea.Decision.{Decision}
use asphallea.Errors.{Exception, Result-cases, ok, policy_violation, raise}
use asphallea.Sandbox.Probe.{Host}
use asphallea.Integrity.{IntegrityResult}
use asphallea.Intercept.{Moment}
use asphallea.Runtime.{Runtime}

module _ {S : AuditSink} (rt : Runtime) (host : Host) (ps : Processes)
    (verify : String → IntegrityResult) (command : List String) (o : Options) (now : Moment) where
  -- If the policy tier denies the tool, `run` raises: `PolicyViolation` with the decision, or what the sink
  -- raised. It starts nothing, writes no policy, and does not look for capabilities.
  pub run_denied :
      (w : World S) {d : Decision}
      → (check rt (sandbox_call o.tool) now.clock w.engine).0 ≡ ok d
      → d.allowed ≡ false
      → ((run rt host ps verify command o now w).1.trace ≡ w.trace)
        × ((run rt host ps verify command o now w).1.caps_cache ≡ w.caps_cache)
        × (((run rt host ps verify command o now w).0 ≡ raise (policy_violation d o.tool))
            ⊎ ((x : Exception) × (sink : S.State) × (w.audit ≡ some sink)
                × (S.write
                      (sandbox_record o.tool d command w.engine.policy.name "policy" none none
                        now.timestamp)
                      sink
                    ≡ raise x)
                × ((run rt host ps verify command o now w).0 ≡ raise x)))
  unfolding run after_check check_sandbox audit_record
  run_denied w {d} answered refused = elim (Option-cases w.audit) [
    | inl quiet ↦ (ground arith, ground arith, inl (ground arith))
    | inr (sink, has) ↦
        elim (Result-cases (
          S.write
            (sandbox_record o.tool d command w.engine.policy.name "policy" none none now.timestamp)
            sink)) [
              | inl (sink', wrote) ↦ (ground arith, ground arith, inl (ground arith))
              | inr (x, failed) ↦
                  (ground arith, ground arith, inr (x, sink, has, failed, ground arith))
            ]
  ]
