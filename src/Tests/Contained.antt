-- ===== src/Tests/Contained.antt =====
-- The contained run.
use asphallea.Prelude.{refl, String, [], false, none, some, true, ◌≡◌, ◌⊎◌, ◌∷◌, str_dec}
use asphallea.Sandbox.Denied.{run_denied}
use asphallea.Sandbox.World.{
  launched, World, killed_group, wrote_policy, made_folder, removed_folder,
}
use asphallea.Engine.{
  commit, check, check_access, check_budget, check_calls, check_network, check_rate, check_reads,
  check_spend, check_tool, check_writes, drop_expired, first_refused, targets_of,
}
use asphallea.Sandbox.Probe.{
  detect, Host, capabilities, capabilities_from, core_binary, detect_starts, first_file, probe_argv,
  probe_host, probe_starts, started, starts_with,
}
use asphallea.Sandbox.Processes.{exec, overran, Processes, completed, kill_tree}
use asphallea.Sandbox.Run.{run, after_check, check_sandbox, run_found, run_with, verify_and_run}
use asphallea.Sandbox.Contained.{
  Options, audit_record, contained_argv, run_contained, SandboxResult, in_folder, run_core,
}
use asphallea.Sandbox.Capabilities.{covers}
use asphallea.Integrity.{IntegrityResult, compare_digest}
use asphallea.Tests.Data.{runtime, policy, engine}
use asphallea.Policy.CoreJson.{core_json}
use asphallea.Audit.{AuditSink}
use asphallea.Sandbox.FailClosed.{MayStart, run_fails_closed}
use asphallea.Sandbox.Keeps.{LaunchedOnly}
use asphallea.Intercept.{Moment}
use asphallea.Value.{Value, cons, end, field, nil}
use asphallea.Prelude.Dict.{insert, lookup}
use asphallea.Errors.{ok, os_error, raise, Exception, policy_violation}
use asphallea.Prelude.Int.{pos, ◌*ℤ◌, ◌-ℤ◌}
use asphallea.Runtime.{find, to_int, truthy}
use asphallea.Policy.Queries.{tool_allowed}
use asphallea.Decision.{Decision, deny}
use asphallea.Sandbox.Folder.{Orderly}
use asphallea.Sandbox.Folder.Ordered.{run-Orderly}

-- A Linux host whose core binary stands in the folder of the package.
abbrev host : Host
host = record {
  system = "Linux";
  nt = false;
  env_core_bin = none;
  which = some "/usr/bin/asphallea-run";
  is_file = λ path. false;
  here = "/lib/asphallea";
  parent = "/lib";
  probe = λ path. started (
      some (
        Value.dict (
          field (Value.str "landlock_abi") (Value.int (pos 4))
            (field (Value.str "seccomp") (Value.bool true) end))));
}

abbrev processes : Processes
processes = record {
  popen = λ argv timeout. ok (overran "" "");
  posix = true;
  killpg = true;
  policy_path = "/tmp/p.json";
  report_path = "/tmp/r.json";
  report = raise (os_error "missing");
}

abbrev no_sink : AuditSink
no_sink = record { State = Unit {0}; write = λ r s. ok s }

abbrev world : World no_sink
world = record { engine = engine; audit = some tt; caps_cache = none; trace = [] }

abbrev options : Options
options = record {
  tool = "save";
  allow_degraded = false;
  verify_integrity = true;
  timeout = some (pos 9);
}

abbrev verify : String → IntegrityResult
verify path = compare_digest runtime "1A" none

abbrev now : Moment
now = record { clock = pos 7; timestamp = "t" }

run_fails_closed_example :
    LaunchedOnly
      (MayStart runtime host none processes verify ("ls" ∷ []) options policy)
      (run runtime host processes verify ("ls" ∷ []) options now world).1.trace
run_fails_closed_example =
    run_fails_closed runtime host processes verify ("ls" ∷ []) options now world refl tt

-- The contained run that the timeout ends: the core is probed, the policy is written, the core is started, its group killed.
run_test :
    (run runtime host processes verify ("ls" ∷ []) options now world).1.trace
    ≡ launched (probe_argv "/usr/bin/asphallea-run")
      ∷ made_folder
      ∷ wrote_policy "/tmp/p.json" (
          ("name", Value.str "agent")
          ∷ (
            "filesystem",
            Value.dict (
                field
                  (Value.str "read")
                  (Value.list (cons (Value.str "/w") nil))
                  (field (Value.str "write") (Value.list (cons (Value.str "/w/out") nil)) end)),
          )
          ∷ ("network", Value.str "deny")
          ∷ (
            "limits",
            Value.dict (
                field
                  (Value.str "cpu_seconds")
                  (Value.int (pos 2))
                  (field (Value.str "memory_bytes") (Value.int (pos 67108864)) end)),
          )
          ∷ [])
      ∷ launched (contained_argv processes ("ls" ∷ []) "/usr/bin/asphallea-run")
      ∷ killed_group
      ∷ removed_folder
      ∷ []
unfolding core_json ◌*ℤ◌ run after_check check_sandbox audit_record capabilities run_with run_found
    verify_and_run run_contained run_core in_folder exec completed kill_tree detect probe_host
    capabilities_from detect_starts starts_with probe_starts find core_binary first_file covers
    compare_digest check check_access check_tool check_reads check_writes check_network
    first_refused tool_allowed targets_of check_budget check_calls check_rate check_spend commit
    drop_expired lookup insert ◌-ℤ◌ str_dec to_int truthy
run_test = refl

abbrev killed : SandboxResult
killed = record {
  returncode = pos 124;
  stdout = "";
  stderr = "\nasphallea: killed after timeout of 60s\n";
  contained = true;
  degraded = false;
  controls = ("contained", Value.bool true) ∷ ("report", Value.str "unavailable") ∷ [];
  command = "ls" ∷ [];
}

abbrev shell : Options
shell = record options { tool = "shell" }

abbrev denial : Decision
denial = deny "tool_allowlist" "tool value is not in the allowed set"

run_denied_example :
    ((run runtime host processes verify ("ls" ∷ []) shell now world).1.trace ≡ [])
    × ((run runtime host processes verify ("ls" ∷ []) shell now world).1.caps_cache ≡ none)
    × (((run runtime host processes verify ("ls" ∷ []) shell now world).0
          ≡ raise (policy_violation denial "shell"))
        ⊎ ((x : Exception) × (sink : Unit {0}) × (some tt ≡ some sink)
            × (ok sink ≡ raise x)
            × ((run runtime host processes verify ("ls" ∷ []) shell now world).0 ≡ raise x)))
unfolding check check_access check_tool tool_allowed str_dec
run_denied_example =
    run_denied runtime host processes verify ("ls" ∷ []) shell now world {d = denial} refl refl

run-Orderly_example :
    Orderly runtime host processes
      ("ls" ∷ [])
      options
      policy
      (run runtime host processes verify ("ls" ∷ []) options now world).1.trace
run-Orderly_example = run-Orderly runtime host processes verify ("ls" ∷ []) options now world refl
