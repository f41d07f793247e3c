-- ===== src/Policy/Documents/Sections.antt =====
-- The sections of a document, as `from_dict` of asphallea/policy.py hands them to the builder.
use asphallea.Prelude.{
  List, Option, String, [], count, none, some, true, if◌then◌else◌, ◌==◌, ◌<>◌, ◌∷◌,
}
use asphallea.Errors.{Result, ok, raise, policy_error, ◌>>=◌, ◌>>◌}
use asphallea.Value.{Value, Fields, items, end, field}
use asphallea.Policy.Builder.{Builder, Method, apply}
use asphallea.Policy.Documents.Values.{
  get, list_under, table_under, item_under, entries_of, or_empty, reject_unknown, as_names,
  not_null,
}
use asphallea.Runtime.{Runtime, str_of, to_float, to_int}
use asphallea.Prelude.Int.{ℤ}

-- A loop that calls methods of the builder for each value.
unfoldable pub each : (Value → Builder → Result Builder) → List Value → Builder → Result Builder
each step [] b = ok b
each step (v ∷ vs) b = do b' ← step v b; each step vs b'

-- The same, for each key and its value.
unfoldable pub each_entry :
    (Value → Value → Builder → Result Builder) → Fields → Builder → Result Builder
each_entry step end b = ok b
each_entry step (field k v fs) b = do b' ← step k v b; each_entry step fs b'

-- The keys of each section, and of the tables in it.
abbrev pub tools_keys : List String
tools_keys = "allow" ∷ "deny" ∷ "args" ∷ []

abbrev pub args_keys : List String
args_keys = "reads" ∷ "writes" ∷ "network" ∷ []

abbrev pub filesystem_keys : List String
filesystem_keys = "read" ∷ "write" ∷ []

abbrev pub network_keys : List String
network_keys = "default" ∷ "allow_hosts" ∷ "deny_hosts" ∷ []

abbrev pub limits_keys : List String
limits_keys =
    "timeout_seconds" ∷ "calls" ∷ "rate" ∷ "cpu_seconds" ∷ "memory_mb" ∷ "max_file_size_mb"
    ∷ "max_processes" ∷ "max_open_files" ∷ []

abbrev pub rate_keys : List String
rate_keys = "per_minute" ∷ "per_second" ∷ []

abbrev pub spend_keys : List String
spend_keys = "max_calls" ∷ []

module _ (rt : Runtime) where
  unfoldable pub declare_tool : Value → Value → Builder → Result Builder
  declare_tool tool spec b = do
    reject_unknown rt (or_empty spec) args_keys ("tools.args." <> str_of rt tool)
    reads ← get (or_empty spec) "reads"
    writes ← get (or_empty spec) "writes"
    network ← get (or_empty spec) "network"
    read_names ← as_names rt reads
    write_names ← as_names rt writes
    network_names ← as_names rt network
    apply rt
        (Method.declare (str_of rt tool)
          (record { reads = read_names; writes = write_names; network = network_names }) true)
        b

  abbrev allow_one : Value → Builder → Result Builder
  allow_one tool = apply rt (Method.allow_tools (str_of rt tool ∷ []))

  abbrev deny_one : Value → Builder → Result Builder
  deny_one tool = apply rt (Method.deny_tools (str_of rt tool ∷ []))

  unfoldable pub load_tools : Value → Builder → Result Builder
  unfolding each each_entry declare_tool
  load_tools tools b = do
    reject_unknown rt tools tools_keys "tools"
    allowed ← list_under tools "allow"
    with_allowed ← each allow_one (items allowed) b
    refused ← list_under tools "deny"
    with_refused ← each deny_one (items refused) with_allowed
    args ← table_under tools "args"
    each_entry declare_tool args with_refused

  abbrev read_one : Value → Builder → Result Builder
  read_one path = apply rt (Method.read_paths (str_of rt path ∷ []))

  abbrev write_one : Value → Builder → Result Builder
  write_one path = apply rt (Method.write_paths (str_of rt path ∷ []))

  unfoldable pub load_filesystem : Value → Builder → Result Builder
  unfolding each
  load_filesystem fs b = do
    reject_unknown rt fs filesystem_keys "filesystem"
    read ← list_under fs "read"
    with_read ← each read_one (items read) b
    write ← list_under fs "write"
    each write_one (items write) with_read

  -- `str(net.get("default", "deny"))`
  abbrev pub default_text : Option Value → String
  default_text none = "deny"
  default_text (some v) = str_of rt v

  unfoldable pub set_default : String → Builder → Result Builder
  set_default default b =
      if default == "deny"
      then apply rt Method.deny_network b
      else if default == "allow"
      then apply rt Method.allow_network b
      else raise (
          policy_error
            ("network.default must be 'deny' or 'allow', got " <> rt.repr (Value.str default)))

  unfoldable pub load_network : Value → Builder → Result Builder
  unfolding set_default
  load_network net b = do
    reject_unknown rt net network_keys "network"
    default ← get net "default"
    with_default ← set_default (default_text default) b
    allowed ← list_under net "allow_hosts"
    with_allowed ← apply rt (Method.allow_hosts (items allowed)) with_default
    refused ← list_under net "deny_hosts"
    apply rt (Method.deny_hosts (items refused)) with_allowed

  unfoldable pub set_timeout : Option Value → Builder → Result Builder
  set_timeout none b = ok b
  set_timeout (some v) b = do seconds ← to_float rt v; apply rt (Method.timeout seconds) b

  unfoldable pub set_calls : Value → Value → Builder → Result Builder
  set_calls tool n b = do count ← to_int rt n; apply rt (Method.max_calls (str_of rt tool) count) b

  -- `int(per_minute)` or `int(per_second)`, which `rate_limit` takes only of the one that is given.
  unfoldable pub rate_arguments : Option Value → Option Value → Result (Option ℤ × Option ℤ)
  rate_arguments (some v) none = do n ← to_int rt v; ok (some n, none)
  rate_arguments none (some v) = do n ← to_int rt v; ok (none, some n)
  rate_arguments _ _ = ok (none, none)

  unfoldable pub set_rate : Value → Value → Builder → Result Builder
  unfolding rate_arguments
  set_rate tool spec b = do
    reject_unknown rt (or_empty spec) rate_keys ("limits.rate." <> str_of rt tool)
    per_minute ← get (or_empty spec) "per_minute"
    per_second ← get (or_empty spec) "per_second"
    given ← rate_arguments (not_null per_minute) (not_null per_second)
    apply rt (Method.rate_limit (str_of rt tool) given.0 given.1) b

  unfoldable pub load_limits : Value → Builder → Result Builder
  unfolding each_entry set_timeout set_calls set_rate
  load_limits limits b = do
    reject_unknown rt limits limits_keys "limits"
    timeout ← item_under limits "timeout_seconds"
    with_timeout ← set_timeout timeout b
    calls ← table_under limits "calls"
    with_calls ← each_entry set_calls calls with_timeout
    rate ← table_under limits "rate"
    with_rate ← each_entry set_rate rate with_calls
    cpu ← get limits "cpu_seconds"
    memory ← get limits "memory_mb"
    file_size ← get limits "max_file_size_mb"
    processes ← get limits "max_processes"
    open_files ← get limits "max_open_files"
    apply rt
        (Method.limits (record {
          cpu_seconds = not_null cpu;
          memory_mb = not_null memory;
          max_file_size_mb = not_null file_size;
          max_processes = not_null processes;
          max_open_files = not_null open_files;
        }))
        with_rate

  -- `int(spec["max_calls"])`, which has to be there
  unfoldable pub cap_of : Value → Option Value → Builder → Result Builder
  cap_of tool none b = raise (policy_error ("spend." <> str_of rt tool <> " requires 'max_calls'"))
  cap_of tool (some v) b = do cap ← to_int rt v; apply rt (Method.spend_cap (str_of rt tool) cap) b

  unfoldable pub set_cap : Value → Value → Builder → Result Builder
  unfolding cap_of
  set_cap tool spec b = do
    reject_unknown rt (or_empty spec) spend_keys ("spend." <> str_of rt tool)
    found ← item_under (or_empty spec) "max_calls"
    cap_of tool found b

  unfoldable pub load_spend : Value → Builder → Result Builder
  unfolding each_entry set_cap
  load_spend spend b = do table ← entries_of spend; each_entry set_cap table b
