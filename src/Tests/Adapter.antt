-- ===== src/Tests/Adapter.antt =====
-- Tools of LangChain under a policy.
use asphallea.Prelude.{
  arith, String, ℕ, List, [], none, some, ◌∷◌, ◌+◌, false, inr, true, inl, refl, str_dec, ◌≤◌, ◌≡◌,
}
use asphallea.LangChain.Calls.{
  Shared, settle_call, delegate, noted, check_of, entry_of, decide_input, run_entry,
}
use asphallea.Tests.Data.{runtime, policy, engine}
use asphallea.LangChain.{
  GuardedTool, Request, Tool, invoke, of_texts, extract, extract_each, pick, payload_of, as_args,
  as_kwargs,
}
use asphallea.Audit.{AuditRecord, AuditSink}
use asphallea.Intercept.{Moment, decide, interceptor_over, these_names, texts_of, write_to}
use asphallea.Guard.{by_name}
use asphallea.Errors.{ok, Result}
use asphallea.Value.{Value}
use asphallea.LangChain.Agrees.{decide_input-decide}
use asphallea.LangChain.Session.{Use, Changes-max_calls, changed, other, over}
use asphallea.Engine.{
  Engine, new_engine, within_any, commit, check, check_access, check_budget, check_calls,
  check_network, check_rate, check_reads, check_spend, check_tool, check_writes, drop_expired,
  first_refused, targets_of, under_any, under_prefix,
}
use asphallea.Policy.Queries.{args_for, tool_allowed}
use asphallea.Prelude.Dict.{insert, lookup, Dict}
use asphallea.Runtime.{find}
use asphallea.Decision.{Decision}
use asphallea.Prelude.Int.{◌-ℤ◌, pos, pos_part}
use asphallea.LangChain.Outcome.{run_entry-within}

-- A sink that keeps its records, newest first.
abbrev kept : AuditSink
kept = record { State = List AuditRecord; write = λ r s. ok (r ∷ s) }

abbrev moment : Moment
moment = record { clock = pos 7; timestamp = "2026-01-01T00:00:00" }

-- A tool that counts its calls, and never ends by a deadline.
abbrev saving : Tool
saving = record {
  State = ℕ;
  name = "save";
  perform = λ request t. (ok Value.null, t + 1);
  perform_within = λ limit request t. (none, t + 1);
}

abbrev guard : GuardedTool
guard = record {
  name = "save";
  read_names = [];
  write_names = by_name "path" ∷ [];
  network = false;
  timeout = none;
  on_deny = "return";
}

abbrev start : Shared kept
start = record { engine = engine; audit = some [] }

abbrev to_path : String → Dict Value
to_path path = ("path", Value.str path) ∷ []

abbrev saved : String → Request
saved path = invoke (Value.dict (of_texts (to_path path))) Value.null []

run_entry-within_example : within_any runtime policy.write_paths "/w/out/a" ≡ ok true
unfolding run_entry settle_call delegate decide_input noted check_of extract extract_each pick
    payload_of find texts_of write_to entry_of as_args as_kwargs check check_access check_tool
    check_reads check_writes check_network first_refused within_any under_any under_prefix
    tool_allowed targets_of check_budget check_calls check_rate check_spend commit drop_expired
    lookup insert ◌-ℤ◌ str_dec
run_entry-within_example =
    run_entry-within kept runtime saving guard (saved "/w/out/a") moment start 4
      (by_name "path" ∷ []) ("/w/out" ∷ []) (by_name "path") (Value.str "/w/out/a") "/w/out/a"
      (λ same. omega (arith, same)) (inr (inl refl)) (inl refl) refl (inl refl)

-- The policy without its declared arguments
abbrev undeclared : Engine
undeclared = new_engine (record policy { tool_args = [] })

abbrev answer : Result Decision
answer =
    (decide_input kept runtime saving guard (Value.dict (of_texts (to_path "/w/outer"))) moment
      (record { engine = undeclared; audit = none })).0

decide_input-decide_example :
    (answer
      ≡ (decide kept runtime "save"
          (some (to_path "/w/outer"))
          (record { reads = these_names []; writes = these_names ("path" ∷ []); network = false })
          moment
          (interceptor_over kept undeclared none)).0)
    × ((decide_input kept runtime saving guard
          (Value.dict (of_texts (to_path "/w/outer")))
          moment
          (record { engine = undeclared; audit = none })).1.engine
        ≡ (decide kept runtime "save"
            (some (to_path "/w/outer"))
            (record { reads = these_names []; writes = these_names ("path" ∷ []); network = false })
            moment
            (interceptor_over kept undeclared none)).1.engine)
unfolding args_for lookup
decide_input-decide_example =
    decide_input-decide kept runtime saving guard undeclared [] ("path" ∷ []) (to_path "/w/outer")
      moment refl refl refl

-- A call to a path.
abbrev used : String → Use
used path = record { tool = saving; guard = guard; request = saved path; now = moment; state = 0 }

abbrev uses : List Use
uses = used "/w/out/a" ∷ used "/w/outer" ∷ used "/w/out/b" ∷ []

Changes-max_calls_example : 2 ≤ pos_part (pos 3)
unfolding run_entry settle_call delegate decide_input noted check_of extract extract_each pick
    payload_of find texts_of write_to entry_of as_args as_kwargs check check_access check_tool
    check_reads check_writes check_network first_refused within_any under_any under_prefix
    tool_allowed targets_of check_budget check_calls check_rate check_spend commit drop_expired
    lookup insert ◌-ℤ◌ str_dec
Changes-max_calls_example =
    Changes-max_calls kept runtime "save" policy {us = uses} {s = start} {cap = pos 3} refl refl (
      changed {u = used "/w/out/a"} refl (λ same. omega (arith, same))
        (other {u = used "/w/outer"}
          (changed {u = used "/w/out/b"} refl (λ same. omega (arith, same)) over)))
