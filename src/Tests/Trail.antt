-- ===== src/Tests/Trail.antt =====
-- The interceptor, and the guards of MCP sessions and of functions.
use asphallea.Prelude.{arith, refl, List, String, [], none, some, str_dec, ℕ, ◌+◌, ◌≡◌, ◌∷◌, false}
use asphallea.Mcp.Reach.{call_guarded-Governs}
use asphallea.Mcp.{forward, Guard, Server, call_guarded, policy_tool_name}
use asphallea.Guard.{
  proceed, run_allowed, guarded, resolve, Function, Guarded, argument_names, bind_call, by_index,
  put_all,
}
use asphallea.Guard.Reach.{GovernsCall, guarded-GovernsCall}
use asphallea.Intercept.{
  record_of, record_decision, recorded, decide, Interceptor, Moment, as_tuple, call_of,
  new_interceptor, no_keywords, texts_of, values_for, write_to,
}
use asphallea.Engine.{
  commit, check, check_access, check_budget, check_calls, check_network, check_rate, check_reads,
  check_spend, check_tool, check_writes, drop_expired, first_refused, targets_of, under_any,
  under_prefix, within_any,
}
use asphallea.Tests.Data.{runtime, policy}
use asphallea.Intercept.Governed.{Governs, decide-Governs}
use asphallea.Audit.{AuditRecord, AuditSink}
use asphallea.Decision.{Decision, deny}
use asphallea.Prelude.Dict.{Dict, insert, lookup}
use asphallea.Value.{Value}
use asphallea.Policy.Queries.{args_for, tool_allowed}
use asphallea.Intercept.Record.{decide-recorded, engine_answer, expected_record}
use asphallea.Errors.{ok}
use asphallea.Prelude.Int.{pos, ◌-ℤ◌}

-- A sink that keeps its records, newest first.
abbrev kept : AuditSink
kept = record { State = List AuditRecord; write = λ r s. ok (r ∷ s) }

abbrev moment : Moment
moment = record { clock = pos 7; timestamp = "2026-01-01T00:00:00" }

abbrev gate : Interceptor kept
gate = new_interceptor kept policy (some [])

abbrev to_path : String → Dict Value
to_path path = ("path", Value.str path) ∷ []

abbrev refusal_of_outer : Decision
refusal_of_outer = deny "write_paths" "write path value is not under an allowed write prefix"

decide-recorded_example :
    (engine_answer kept runtime "save" (some (to_path "/w/outer")) no_keywords moment gate).0
      ≡ ok refusal_of_outer
    × ((sink : List AuditRecord) × (ok (
            expected_record kept runtime "save"
              (some (to_path "/w/outer"))
              no_keywords
              moment
              gate
              refusal_of_outer
            ∷ [])
          ≡ ok sink)
        × ((decide kept runtime "save" (some (to_path "/w/outer")) no_keywords moment gate).1.audit
            ≡ some sink))
unfolding decide recorded record_decision write_to record_of call_of values_for as_tuple texts_of
    args_for check check_access check_tool check_reads check_writes check_network first_refused
    within_any under_any under_prefix tool_allowed targets_of check_budget check_calls check_rate
    check_spend commit drop_expired lookup insert ◌-ℤ◌ str_dec
decide-recorded_example =
    decide-recorded kept runtime "save" (some (to_path "/w/outer")) no_keywords moment gate
      {d = refusal_of_outer} {sink = []} refl refl

decide-Governs_example : Governs runtime policy "save" (to_path "/w/out/a") no_keywords
unfolding decide recorded record_decision write_to record_of call_of values_for as_tuple texts_of
    args_for check check_access check_tool check_reads check_writes check_network first_refused
    within_any under_any under_prefix tool_allowed targets_of check_budget check_calls check_rate
    check_spend commit drop_expired lookup insert ◌-ℤ◌ str_dec
decide-Governs_example =
    decide-Governs kept runtime "save" (some (to_path "/w/out/a")) no_keywords moment gate refl refl

-- A server that counts the calls it gets.
abbrev server : Server
server = record { State = ℕ; call_tool = λ name arguments t. (ok (Value.str name), t + 1) }

abbrev guard : Guard kept
guard = record { gate = gate; on_deny = "error"; namespace = some "fs" }

abbrev open_guard : Guard kept
open_guard = record { gate = gate; on_deny = "raise"; namespace = none }

call_guarded-Governs_example : Governs runtime policy "save" (to_path "/w/out/a") no_keywords
unfolding policy_tool_name call_guarded forward decide recorded record_decision write_to record_of
    call_of values_for as_tuple texts_of args_for check check_access check_tool check_reads
    check_writes check_network first_refused within_any under_any under_prefix tool_allowed
    targets_of check_budget check_calls check_rate check_spend commit drop_expired lookup insert
    ◌-ℤ◌ str_dec
call_guarded-Governs_example =
    call_guarded-Governs kept runtime server "save" (some (to_path "/w/out/a")) moment open_guard 4
      refl (λ same. omega (arith, same))

-- A function of one path that counts its calls, and never ends by a deadline.
abbrev function : Function
function = record {
  State = ℕ;
  signature = λ args kwargs. none;
  call = λ args kwargs t. (ok Value.null, t + 1);
  call_within = λ limit args kwargs t. (none, t + 1);
}

abbrev saver : Guarded
saver = record {
  tool = "save";
  read_spec = [];
  write_spec = by_index (pos 0) ∷ [];
  network = false;
  timeout = some (pos 9);
}

-- The same function without a deadline.
abbrev unlimited : Guarded
unlimited = record saver { timeout = none }

guarded-GovernsCall_example :
    GovernsCall kept runtime function unlimited (Value.str "/w/out/a" ∷ []) [] policy
unfolding guarded proceed run_allowed bind_call argument_names put_all resolve decide recorded
    record_decision write_to record_of call_of values_for as_tuple texts_of args_for check
    check_access check_tool check_reads check_writes check_network first_refused within_any
    under_any under_prefix tool_allowed targets_of check_budget check_calls check_rate check_spend
    commit drop_expired lookup insert ◌-ℤ◌ str_dec
guarded-GovernsCall_example =
    guarded-GovernsCall kept runtime function unlimited (Value.str "/w/out/a" ∷ []) [] moment moment
      gate 4 refl (λ same. omega (arith, same))
