-- ===== src/Examples/Demo/Blocked.antt =====
-- On the guarded run of examples/demo.py: both injected calls are refused before they reach the server.
use asphallea.Prelude.{◌≡◌, refl, String, false, [], ◌∷◌, Option, none, some, arith, str_dec, ◌==◌}
use asphallea.Prelude.Dict.{Dict, lookup}
use asphallea.Runtime.{Runtime}
use asphallea.Value.{Value}
use asphallea.Errors.{ok, raise, policy_violation}
use asphallea.Audit.{AuditSink}
use asphallea.Decision.{Decision}
use asphallea.Policy.{Policy}
use asphallea.Policy.Queries.{args_for}
use asphallea.Policy.Builder.{
  Builder, new_builder, policy_of, from_keys, build, make_policy, normalize_all,
}
use asphallea.Intercept.{new_interceptor, Moment}
use asphallea.Mcp.{Server, Guard, call_guarded}
use asphallea.Examples.Demo.{Arena, reads_path, writes_path}
use asphallea.Examples.Demo.Refusals.{Accepts}

-- The policy of the demo.
abbrev pub demo_builder : (String → String → String) → Arena → Builder
demo_builder join a = record (new_builder "least-privilege-demo") {
  allowed_tools = some ("filesystem.read" ∷ "filesystem.delete" ∷ []);
  tool_args = ("filesystem.read", reads_path) ∷ ("filesystem.delete", writes_path) ∷ [];
  read_paths = a.workspace ∷ [];
  write_paths = join a.workspace "out" ∷ [];
}

module _ (rt : Runtime) (join : String → String → String) (a : Arena) (read write : String) where
  abbrev pub demo_policy : Policy
  demo_policy = policy_of (demo_builder join a) (from_keys (read ∷ [])) (from_keys (write ∷ []))

  demo_names : ("least-privilege-demo" == "") ≡ false
  unfolding str_dec
  demo_names = refl

  pub build-demo_policy :
      rt.real_path a.workspace ≡ ok read
      → rt.real_path (join a.workspace "out") ≡ ok write
      → build rt (demo_builder join a) ≡ ok demo_policy
  unfolding build make_policy normalize_all
  build-demo_policy is_read is_write = ground (arith, demo_names)

  pub demo_args : args_for demo_policy "filesystem.delete" ≡ writes_path
  unfolding args_for lookup str_dec
  demo_args = refl

module _ (S : AuditSink) (rt : Runtime) (join : String → String → String) (a : Arena)
    (read write : String) where
  -- The guard of `run_guarded`.
  abbrev pub demo_guard : Option S.State → Guard S
  demo_guard audit = record {
    gate = new_interceptor S (demo_policy rt join a read write) audit;
    on_deny = "raise";
    namespace = none;
  }

  module _ (server : Server) (accepts : Accepts S) (now : Moment) (audit : Option S.State)
      (s : server.State) where
    -- A refused call, with the trail that it leaves.
    abbrev Refused : String → Dict Value → Decision → Type 0
    Refused name arguments d =
        (audit' : Option S.State) × (call_guarded S rt server name (some arguments) now
            (demo_guard audit) s
          ≡ (raise (policy_violation d name), demo_guard audit', s))
