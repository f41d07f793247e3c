-- ===== src/Sandbox/FailClosed.antt =====
-- On `run` of asphallea/sandbox.py: the commands that it starts.
use asphallea.Prelude.{
  List, String, Option, arith, Bool-cases, false, inl, inr, not, refl, some, true, ◌≡◌, ◌&&◌, none,
  ◌∙◌, ◌⊎◌, Option-cases,
}
use asphallea.Sandbox.Probe.{
  detect, Host, capabilities, core_binary, detect_starts, is_supported, not_started, Probe,
  probe_argv, probe_starts, started, starts_with,
}
use asphallea.Sandbox.Run.{
  record_with, run, check_sandbox, after_check, refuse_or_degrade, requires_fs, requires_net,
  run_with, verify_and_run, run_found,
}
use asphallea.Sandbox.Contained.{audit_record, Options, contained_argv, run_contained}
use asphallea.Sandbox.Processes.{Processes}
use asphallea.Sandbox.Capabilities.{covers, Capabilities}
use asphallea.Sandbox.World.{continue, World, Action}
use asphallea.Audit.{AuditSink, AuditRecord}
use asphallea.Errors.{Result, ok, raise}
use asphallea.Runtime.{Runtime}
use asphallea.Prelude.Int.{ℤ}
use asphallea.Decision.{Decision, denied}
use asphallea.Integrity.{IntegrityResult}
use asphallea.Intercept.{Moment}
use asphallea.Policy.{Policy}
use asphallea.Sandbox.Keeps.{
  LaunchedOnly, LaunchedOnly-Grows, Keeps, keeps_rules, Keeps-capabilities, Keeps-check_sandbox,
  Keeps-audit_record,
}

-- The command line of the probe, which is started before anything is verified: of the core binary that the
-- host shows, where nothing is cached and the platform is one that is probed.
pub record IsProbe (host : Host) (cache : Option Capabilities) (argv : List String) : Type 0 where
  pub binary : String
  pub uncached : cache ≡ none
  pub found : core_binary host ≡ some binary
  pub supported : is_supported host.system ≡ true
  pub argv_lem : argv ≡ probe_argv binary

-- A command line on which `run` may start the caller's command: the core's, where the capabilities that were cached or that the
-- host shows cover what the policy requires, with a binary that has been verified if the caller asked
-- for that.
pub record IsContained (rt : Runtime) (host : Host) (cache : Option Capabilities) (ps : Processes)
    (verify : String → IntegrityResult) (command : List String) (o : Options) (p : Policy)
    (argv : List String) : Type 0 where
  pub caps : Capabilities
  pub binary : String
  pub detected : (cache ≡ some caps) ⊎ (detect rt host ≡ ok caps)
  pub found : caps.core_binary ≡ some binary
  pub covered : covers caps (requires_fs p) (requires_net p) ≡ true
  pub argv_lem : argv ≡ contained_argv ps command binary
  pub trusted : (o.verify_integrity && not (verify binary).is_ok) ≡ false

-- What `run` may start without `allow_degraded`.
abbrev pub MayStart :
    Runtime
    → Host
    → Option Capabilities
    → Processes
    → (String → IntegrityResult)
    → List String
    → Options
    → Policy
    → List String
    → Type 0
MayStart rt host cache ps verify command o p argv =
    IsProbe host cache argv ⊎ IsContained rt host cache ps verify command o p argv

probe_starts-LaunchedOnly :
    (P : List String → Type 0) (probe : Probe) (binary : String)
    → P (probe_argv binary)
    → LaunchedOnly P (probe_starts probe binary)
unfolding probe_starts
probe_starts-LaunchedOnly P not_started binary h = tt
probe_starts-LaunchedOnly P (started output) binary h = (h, tt)

starts_with-LaunchedOnly :
    (P : List String → Type 0) (host : Host) (cache : Option Capabilities) (found : Option String)
    → ((argv : List String) → IsProbe host cache argv → P argv)
    → cache ≡ none
    → core_binary host ≡ found
    → LaunchedOnly P (starts_with host found)
unfolding starts_with
starts_with-LaunchedOnly P host cache none may uncached same = tt
starts_with-LaunchedOnly P host cache (some binary) may uncached same =
    elim (Bool-cases (is_supported host.system)) [
      | inl supported ↦ rw supported (
          probe_starts-LaunchedOnly P (host.probe binary) binary (
            may (probe_argv binary) (record {
              binary = binary;
              uncached = uncached;
              found = same;
              supported = supported;
              argv_lem = refl;
            })))
      | inr other ↦ rw other tt
    ]

detect_starts-LaunchedOnly :
    (P : List String → Type 0) (host : Host) (cache : Option Capabilities)
    → ((argv : List String) → IsProbe host cache argv → P argv)
    → cache ≡ none
    → LaunchedOnly P (detect_starts host)
unfolding detect_starts
detect_starts-LaunchedOnly P host cache may uncached =
    starts_with-LaunchedOnly P host cache (core_binary host) may uncached refl

module _ {S : AuditSink} (P : List String → Type 0) (rt : Runtime) (host : Host) where
  capabilities_launches :
      (cache : Option Capabilities) (w : World S)
      → ((argv : List String) → IsProbe host cache argv → P argv)
      → w.caps_cache ≡ cache
      → LaunchedOnly P w.trace
      → LaunchedOnly P (capabilities rt host false w).1.trace
  capabilities_launches cache w may same h = elim (Option-cases cache) [
    | inl uncached ↦
        (Keeps-capabilities (LaunchedOnly P) (LaunchedOnly P) (LaunchedOnly-Grows P) rt host false
            (detect_starts-LaunchedOnly P host cache may uncached)).at
          w h
    | inr (caps, seen) ↦ unfold capabilities in ground arith
  ]

module _ {S : AuditSink} (P : List String → Type 0) {A B : Type 0} where
  continue_lem :
      (r : Result A × World S) (f : A → Action S B)
      → LaunchedOnly P r.1.trace
      → ((a : A) → r.0 ≡ ok a → Keeps (LaunchedOnly P) (f a))
      → LaunchedOnly P (continue r f).1.trace
  continue_lem (ok a, w) f h kf = (kf a refl).at w h
  continue_lem (raise x, w) f h kf = h

  continue_at :
      (cache : Option Capabilities) (r : Result A × World S) (f : A → Action S B)
      → r.1.caps_cache ≡ cache
      → LaunchedOnly P r.1.trace
      → ((a : A) (w : World S)
          → w.caps_cache ≡ cache
          → LaunchedOnly P w.trace
          → LaunchedOnly P (f a w).1.trace)
      → LaunchedOnly P (continue r f).1.trace
  continue_at cache (ok a, w) f same h kf = kf a w same h
  continue_at cache (raise x, w) f same h kf = h

module _ {S : AuditSink} where
  check_sandbox_cache :
      (rt : Runtime) (tool : String) (clock : ℤ) (w : World S)
      → (check_sandbox rt tool clock w).1.caps_cache ≡ w.caps_cache
  unfolding check_sandbox
  check_sandbox_cache rt tool clock w = refl

  audit_record_cache :
      (r : AuditRecord) (w : World S) → (audit_record r w).1.caps_cache ≡ w.caps_cache
  unfolding audit_record
  audit_record_cache r w = ground arith

  capabilities_seen :
      (rt : Runtime) (host : Host) (w : World S) {cache : Option Capabilities} {caps : Capabilities}
      → w.caps_cache ≡ cache
      → (capabilities rt host false w).0 ≡ ok caps
      → (cache ≡ some caps) ⊎ (detect rt host ≡ ok caps)
  unfolding capabilities
  capabilities_seen rt host w same got = ground arith

module _ {S : AuditSink} (rt : Runtime) (host : Host) (ps : Processes)
    (verify : String → IntegrityResult) (command : List String) (o : Options) (now : Moment)
    (cache : Option Capabilities) where
  Keeps-run_contained :
      (p : Policy) (binary : String)
      → IsContained rt host cache ps verify command o p (contained_argv ps command binary)
      → Keeps {S = S}
          (LaunchedOnly (MayStart rt host cache ps verify command o p))
          (run_contained rt ps command o now p binary)
  unfolding run_contained
  Keeps-run_contained p binary h =
      let start : MayStart rt host cache ps verify command o p (contained_argv ps command binary) =
        inr h in
      search (keeps_rules) depth 8

  Keeps-verify_and_run :
      (p : Policy) (caps : Capabilities) (binary : String)
      → (cache ≡ some caps) ⊎ (detect rt host ≡ ok caps)
      → caps.core_binary ≡ some binary
      → covers caps (requires_fs p) (requires_net p) ≡ true
      → Keeps {S = S}
          (LaunchedOnly (MayStart rt host cache ps verify command o p))
          (verify_and_run rt host ps verify command o now p binary)
  unfolding verify_and_run
  Keeps-verify_and_run p caps binary seen found covered =
      elim (Bool-cases (o.verify_integrity && not (verify binary).is_ok)) [
        | inl bad ↦ rw bad (search keeps_rules)
        | inr good ↦ rw good (
            Keeps-run_contained p binary (record {
              caps = caps;
              binary = binary;
              detected = seen;
              found = found;
              covered = covered;
              argv_lem = refl;
              trusted = good;
            }))
      ]

  Keeps-refuse :
      (p : Policy) (caps : Capabilities)
      → o.allow_degraded ≡ false
      → Keeps {S = S}
          (LaunchedOnly (MayStart rt host cache ps verify command o p))
          (refuse_or_degrade rt host ps verify command o now p caps)
  unfolding refuse_or_degrade
  Keeps-refuse p caps strict = rw strict (search keeps_rules)

  Keeps-run_found :
      (p : Policy) (caps : Capabilities) (binary : Option String)
      → (cache ≡ some caps) ⊎ (detect rt host ≡ ok caps)
      → caps.core_binary ≡ binary
      → covers caps (requires_fs p) (requires_net p) ≡ true
      → Keeps {S = S}
          (LaunchedOnly (MayStart rt host cache ps verify command o p))
          (run_found rt host ps verify command o now p binary)
  unfolding run_found
  Keeps-run_found p caps none seen found covered = search keeps_rules
  Keeps-run_found p caps (some binary) seen found covered =
      Keeps-verify_and_run p caps binary seen found covered

  Keeps-run_with :
      (p : Policy) (caps : Capabilities)
      → (cache ≡ some caps) ⊎ (detect rt host ≡ ok caps)
      → o.allow_degraded ≡ false
      → Keeps {S = S}
          (LaunchedOnly (MayStart rt host cache ps verify command o p))
          (run_with rt host ps verify command o now p caps)
  unfolding run_with
  Keeps-run_with p caps seen strict =
      elim (Bool-cases (covers caps (requires_fs p) (requires_net p))) [
        | inl covered ↦ rw covered (Keeps-run_found p caps caps.core_binary seen refl covered)
        | inr short ↦ rw short (Keeps-refuse p caps strict)
      ]

  after_check_launches :
      (p : Policy) (d : Decision) (w : World S)
      → o.allow_degraded ≡ false
      → w.caps_cache ≡ cache
      → LaunchedOnly (MayStart rt host cache ps verify command o p) w.trace
      → LaunchedOnly
          (MayStart rt host cache ps verify command o p)
          (after_check rt host ps verify command o now p d w).1.trace
  unfolding after_check
  after_check_launches p d w strict same h = elim (Bool-cases (denied d)) [
    | inl refused ↦ rw refused h
    | inr passed ↦ rw passed (
        continue_lem (MayStart rt host cache ps verify command o p) (capabilities rt host false w) _
          (capabilities_launches (MayStart rt host cache ps verify command o p) rt host cache w
            (λ argv. inl) same h)
          λ caps got. Keeps-run_with p caps (capabilities_seen rt host w same got) strict)
  ]

module _ {S : AuditSink} (rt : Runtime) (host : Host) (ps : Processes)
    (verify : String → IntegrityResult) (command : List String) (o : Options) (now : Moment) where
  -- Without `allow_degraded`, whatever the policy tier, the host and the processes answer, and whether
  -- `run` returns or raises: every command that it starts is either `--probe` of the core binary that is
  -- found, where no capabilities are cached (this one is started without verification), or the core binary
  -- on the caller's command, under `--strict`, where the cached or detected capabilities of the host cover
  -- every dimension that the policy requires, and the binary has passed verification if the caller asked
  -- for it.
  pub run_fails_closed :
      (w : World S)
      → o.allow_degraded ≡ false
      → LaunchedOnly (MayStart rt host w.caps_cache ps verify command o w.engine.policy) w.trace
      → LaunchedOnly
          (MayStart rt host w.caps_cache ps verify command o w.engine.policy)
          (run rt host ps verify command o now w).1.trace
  unfolding run
  run_fails_closed w strict h =
      let p = w.engine.policy in
      let P = MayStart rt host w.caps_cache ps verify command o p in
      continue_at P w.caps_cache (check_sandbox rt o.tool now.clock w) _
        (check_sandbox_cache rt o.tool now.clock w)
        ((Keeps-check_sandbox (LaunchedOnly P) rt o.tool now.clock).at w h)
        λ d w1 same1 h1.
          continue_at P w.caps_cache
            (record_with rt host ps verify command o now p d "policy" none none w1) _
            (audit_record_cache _ w1 ∙ same1) ((Keeps-audit_record (LaunchedOnly P) _).at w1 h1)
            λ _ w2 same2 h2.
              after_check_launches rt host ps verify command o now w.caps_cache p d w2 strict same2
                h2
