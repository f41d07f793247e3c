-- ===== src/Sandbox/Folder/Ordered.antt =====
-- On `run` of asphallea/sandbox.py: the temporary folder with the policy, and what is started when.
use asphallea.Prelude.{
  List, String, Option, [], ◌∷◌, ◌++◌, Bool-cases, false, not, true, none, some, inl, inr, refl,
  ◌≡◌, ◌&&◌,
}
use asphallea.Runtime.{Runtime}
use asphallea.Errors.{Result-cases}
use asphallea.Audit.{AuditSink}
use asphallea.Decision.{Decision, denied}
use asphallea.Integrity.{IntegrityResult}
use asphallea.Intercept.{Moment}
use asphallea.Policy.{Policy}
use asphallea.Policy.CoreJson.{core_json}
use asphallea.Sandbox.Capabilities.{Capabilities, covers}
use asphallea.Sandbox.Probe.{
  Host, Probe, capabilities, core_binary, detect_starts, is_supported, not_started, probe_starts,
  started, starts_with,
}
use asphallea.Sandbox.World.{
  Action, World, Effect, warned, printed, made_folder, wrote_policy, ◌>>=◌, ◌>>◌,
}
use asphallea.Sandbox.Processes.{Processes, effects, exec, lift}
use asphallea.Sandbox.Contained.{
  Options, SandboxResult, contained_argv, in_folder, run_core, run_contained,
}
use asphallea.Sandbox.Run.{
  run, check_sandbox, after_check, run_with, run_found, verify_and_run, refuse_or_degrade,
  requires_fs, requires_net, record_with,
}
use asphallea.Sandbox.Keeps.{
  Keeps, Keeps-bind, Keeps-lift, Keeps-effects, Keeps-audit_record, Keeps-check_sandbox,
  Keeps-capabilities, Keeps-exec,
}
use asphallea.Sandbox.Folder.{
  outside, made, written, Leads, Leads-append, Orderly, Orderly-Grows, written-Grows,
  Leads-kill_tree, Inside, folder_removed,
}

module _ (S : AuditSink) (rt : Runtime) (host : Host) (ps : Processes) (command : List String)
    (o : Options) (now : Moment) (p : Policy) (binary : String) where
  abbrev Written : List Effect → Type 0
  Written es = Leads rt host ps command o p outside es written

  Keeps-start : Keeps {S = S} Written (exec rt ps (contained_argv ps command binary) o.timeout)
  Keeps-start =
      Keeps-exec Written (λ es. Leads rt host ps command o p written es written)
        (written-Grows rt host ps command o p) rt ps (contained_argv ps command binary) o.timeout
        ((binary, refl), refl) (Leads-kill_tree rt host ps command o p).1

  Keeps-run_core : Keeps {S = S} Written (run_core rt ps command o now p binary)
  unfolding run_core
  Keeps-run_core = search (Keeps-bind, Keeps-lift, Keeps-audit_record, Keeps-start)

  -- What is done while there is a folder.
  abbrev body : Action S SandboxResult
  body = do
    core ← lift (core_json rt p)
    effects (wrote_policy ps.policy_path core ∷ [])
    run_core rt ps command o now p binary

  body-Inside :
      (w : World S)
      → Leads rt host ps command o p outside w.trace made
      → Inside rt host ps command o p (body w).1.trace
  body-Inside w h = elim (Result-cases (core_json rt p)) [
    | inr (x, failed) ↦ rw failed (inl h)
    | inl (core, is_core) ↦ rw is_core (
        inr (
          Keeps-run_core.at (record w { trace = w.trace ++ wrote_policy ps.policy_path core ∷ [] })
            (Leads-append rt host ps command o p outside made written w.trace
              (wrote_policy ps.policy_path core ∷ []) h (refl, is_core, refl))))
  ]

  run_contained-Orderly :
      Keeps {S = S} (Orderly rt host ps command o p) (run_contained rt ps command o now p binary)
  unfolding run_contained in_folder
  run_contained-Orderly = record {
    at = λ w h.
        let in_it = record w { trace = w.trace ++ made_folder ∷ [] } in
        folder_removed rt host ps command o p (body in_it).1.trace (
          body-Inside in_it (
            Leads-append rt host ps command o p outside outside made w.trace (made_folder ∷ []) h
              refl));
  }

-- The probe.
module _ (rt : Runtime) (host : Host) (ps : Processes) (command : List String) (o : Options)
    (p : Policy) where
  probe_starts-Orderly :
      (probe : Probe) (binary : String)
      → core_binary host ≡ some binary
      → Orderly rt host ps command o p (probe_starts probe binary)
  unfolding probe_starts
  probe_starts-Orderly not_started binary found = refl
  probe_starts-Orderly (started output) binary found = (inr (binary, found, refl), refl)

  starts_with-Orderly :
      (found : Option String)
      → core_binary host ≡ found
      → Orderly rt host ps command o p (starts_with host found)
  unfolding starts_with
  starts_with-Orderly none same = refl
  starts_with-Orderly (some binary) same = elim (Bool-cases (is_supported host.system)) [
    | inl supported ↦ rw supported (probe_starts-Orderly (host.probe binary) binary same)
    | inr other ↦ rw other refl
  ]

-- What `run` does beside the contained run.
module _ {S : AuditSink} (rt : Runtime) (host : Host) (ps : Processes) (command : List String)
    (o : Options) (p : Policy) where
  Keeps-degraded :
      o.allow_degraded ≡ true
      → Keeps {S = S} (Orderly rt host ps command o p) (exec rt ps command o.timeout)
  Keeps-degraded permitted =
      Keeps-exec (Orderly rt host ps command o p) (Orderly rt host ps command o p)
        (Orderly-Grows rt host ps command o p) rt ps command o.timeout (inl (permitted, refl), refl)
        (Leads-kill_tree rt host ps command o p).0

  Keeps-detected : Keeps {S = S} (Orderly rt host ps command o p) (capabilities rt host false)
  unfolding detect_starts
  Keeps-detected =
      Keeps-capabilities (Orderly rt host ps command o p) (Orderly rt host ps command o p)
        (Orderly-Grows rt host ps command o p) rt host false
        (starts_with-Orderly rt host ps command o p (core_binary host) refl)

  Keeps-warned :
      (message : String)
      → Keeps {S = S}
          (Orderly rt host ps command o p)
          (effects (warned message ∷ printed message ∷ []))
  Keeps-warned message =
      Keeps-effects (Orderly rt host ps command o p) (Orderly rt host ps command o p)
        (Orderly-Grows rt host ps command o p) (warned message ∷ printed message ∷ []) refl

ruleset orderly_rules = (
  Keeps-bind, Keeps-lift, Keeps-audit_record, Keeps-check_sandbox, Keeps-detected, Keeps-warned,
  Keeps-degraded, run_contained-Orderly, refl,
)

module _ {S : AuditSink} (rt : Runtime) (host : Host) (ps : Processes)
    (verify : String → IntegrityResult) (command : List String) (o : Options) (now : Moment)
    (p : Policy) where
  refuse_or_degrade-Orderly :
      (caps : Capabilities)
      → Keeps {S = S}
          (Orderly rt host ps command o p)
          (refuse_or_degrade rt host ps verify command o now p caps)
  unfolding refuse_or_degrade
  refuse_or_degrade-Orderly caps = elim (Bool-cases o.allow_degraded) [
    | inl permitted ↦ rw permitted (search orderly_rules)
    | inr strict ↦ rw strict (search orderly_rules)
  ]

  run_found-Orderly :
      (binary : Option String)
      → Keeps {S = S}
          (Orderly rt host ps command o p)
          (run_found rt host ps verify command o now p binary)
  unfolding run_found verify_and_run
  run_found-Orderly none = search orderly_rules
  run_found-Orderly (some binary) =
      elim (Bool-cases (o.verify_integrity && not (verify binary).is_ok)) [
        | inl bad ↦ rw bad (search orderly_rules)
        | inr good ↦ rw good (search orderly_rules)
      ]

  run_with-Orderly :
      (caps : Capabilities)
      → Keeps {S = S}
          (Orderly rt host ps command o p)
          (run_with rt host ps verify command o now p caps)
  unfolding run_with
  run_with-Orderly caps = elim (Bool-cases (covers caps (requires_fs p) (requires_net p))) [
    | inl covered ↦ rw covered (run_found-Orderly caps.core_binary)
    | inr short ↦ rw short (refuse_or_degrade-Orderly caps)
  ]

  after_check-Orderly :
      (d : Decision)
      → Keeps {S = S}
          (Orderly rt host ps command o p)
          (after_check rt host ps verify command o now p d)
  unfolding after_check
  after_check-Orderly d = elim (Bool-cases (denied d)) [
    | inl refused ↦ rw refused (search orderly_rules)
    | inr passed ↦ rw passed (search (orderly_rules, run_with-Orderly))
  ]

  check_and_run-Orderly : Keeps {S = S} (Orderly rt host ps command o p) (do
    d ← check_sandbox rt o.tool now.clock
    record_with rt host ps verify command o now p d "policy" none none
    after_check rt host ps verify command o now p d)
  check_and_run-Orderly = search (orderly_rules, after_check-Orderly)

-- Whatever the policy tier, the host and the processes answer, and whether `run` returns or raises: the
-- core binary is started only while the temporary folder holds a policy file with what the core is to know
-- of the engine's policy, and with that file on its command line; the folder is removed; and without a
-- folder nothing is started but `--probe` of the core binary that is found, and the bare command, if the
-- caller set `allow_degraded`.
pub run-Orderly :
    {S : AuditSink} (rt : Runtime) (host : Host) (ps : Processes)
    (verify : String → IntegrityResult) (command : List String) (o : Options) (now : Moment)
    (w : World S)
    → Orderly rt host ps command o w.engine.policy w.trace
    → Orderly rt host ps command o w.engine.policy (run rt host ps verify command o now w).1.trace
unfolding run
run-Orderly rt host ps verify command o now w h =
    (check_and_run-Orderly rt host ps verify command o now w.engine.policy).at w h
