-- ===== src/Tests/Example.antt =====
-- The document of policies/example.yaml, and the calls of a builder that it means.
use asphallea.Prelude.{String, refl, false, none, some, [], ◌∷◌, ◌≡◌, str_dec, List}
use asphallea.Prelude.Int.{pos, ◌*ℤ◌}
use asphallea.Errors.{◌>>=◌}
use asphallea.Policy.{ToolArgs}
use asphallea.Policy.Builder.{build, chain, new_builder}
use asphallea.Policy.Documents.{from_dict, policy_keys}
use asphallea.Policy.Documents.Schema.{Describes, Schema, methods_of, text_items}
use asphallea.Policy.Documents.Meaning.{from_dict-Describes}
use asphallea.Runtime.{find}
use asphallea.Tests.Data.{runtime}
use asphallea.Value.{Fields, Value, end, field}

abbrev under : String → Value → Fields → Fields
under key v fs = field (Value.str key) v fs

abbrev texts : List String → Value
texts ss = Value.list (text_items ss)

-- `key: path` of a tool
abbrev one : String → String → Value
one key name = Value.dict (under key (Value.str name) end)

abbrev tools_section : Fields
tools_section = under "allow" (texts ("search" ∷ "run_shell" ∷ [])) (
    under "deny" (texts ("filesystem.delete" ∷ [])) (
      under "args"
        (Value.dict (
          under "read_file" (one "reads" "path") (
            under "write_file" (one "writes" "path") (
              under "filesystem.delete" (one "writes" "path")
                (under "search" (one "network" "url") end)))))
        end))

abbrev filesystem_section : Fields
filesystem_section =
    under "read" (texts ("./workspace" ∷ [])) (under "write" (texts ("./workspace/out" ∷ [])) end)

abbrev network_section : Fields
network_section =
    under "default" (Value.str "deny")
      (under "allow_hosts" (texts ("api.search.example.com" ∷ [])) end)

abbrev limits_section : Fields
limits_section = under "timeout_seconds" (Value.int (pos 30)) (
    under "calls"
      (Value.dict
        (under "search" (Value.int (pos 25)) (under "run_shell" (Value.int (pos 10)) end)))
      (under "rate"
        (Value.dict (under "search" (Value.dict (under "per_minute" (Value.int (pos 30)) end)) end))
        (under "cpu_seconds" (Value.int (pos 10)) (
          under "memory_mb" (Value.int (pos 512)) (
            under "max_file_size_mb" (Value.int (pos 100)) (
              under "max_processes" (Value.int (pos 64))
                (under "max_open_files" (Value.int (pos 256)) end)))))))

abbrev spend_section : Fields
spend_section = under "search" (Value.dict (under "max_calls" (Value.int (pos 25)) end)) end

abbrev example : Fields
example = under "name" (Value.str "least-privilege-agent") (
    under "tools" (Value.dict tools_section) (
      under "filesystem" (Value.dict filesystem_section) (
        under "network" (Value.dict network_section) (
          under "limits" (Value.dict limits_section)
            (under "spend" (Value.dict spend_section) end)))))

abbrev reading : ToolArgs
reading = record { reads = "path" ∷ []; writes = []; network = [] }

abbrev writing : ToolArgs
writing = record { reads = []; writes = "path" ∷ []; network = [] }

abbrev reaching : ToolArgs
reaching = record { reads = []; writes = []; network = "url" ∷ [] }

-- What it says.
abbrev says : Schema
says = record {
  name = "least-privilege-agent";
  tools = some (record {
    allow = "search" ∷ "run_shell" ∷ [];
    deny = "filesystem.delete" ∷ [];
    args =
        ("read_file", reading)
        ∷ ("write_file", writing)
        ∷ ("filesystem.delete", writing)
        ∷ ("search", reaching)
        ∷ [];
  });
  filesystem = some (record { read = "./workspace" ∷ []; write = "./workspace/out" ∷ [] });
  network =
      some
        (record { is_open = false; allow_hosts = "api.search.example.com" ∷ []; deny_hosts = [] });
  limits = some (record {
    timeout = some (pos 30000000000);
    calls = ("search", pos 25) ∷ ("run_shell", pos 10) ∷ [];
    rates = ("search", record { per_minute = some (pos 30); per_second = none }) ∷ [];
    core = record {
      cpu_seconds = some (Value.int (pos 10));
      memory_mb = some (Value.int (pos 512));
      max_file_size_mb = some (Value.int (pos 100));
      max_processes = some (Value.int (pos 64));
      max_open_files = some (Value.int (pos 256));
    };
  });
  spend = some (("search", pos 25) ∷ []);
}

example-Describes : Describes policy_keys example says
unfolding find str_dec ◌*ℤ◌
example-Describes = record {
  known = (refl, (refl, (refl, (refl, (refl, (refl, tt))))));
  name = refl;
  named = refl;
  tools = (
    (refl, (refl, (refl, tt))),
    refl,
    refl,
    (
      refl,
      ((refl, tt), refl, refl, refl),
      (
        refl,
        ((refl, tt), refl, refl, refl),
        (refl, ((refl, tt), refl, refl, refl), (refl, ((refl, tt), refl, refl, refl), tt)),
      ),
    ),
  );
  filesystem = ((refl, (refl, tt)), refl, refl);
  network = ((refl, (refl, tt)), refl, refl, refl);
  limits = (
    (refl, (refl, (refl, (refl, (refl, (refl, (refl, (refl, tt)))))))),
    refl,
    (refl, refl, (refl, refl, tt)),
    (refl, ((refl, tt), refl, refl), tt),
    refl,
    refl,
    refl,
    refl,
    refl,
  );
  spend = (refl, ((refl, tt), refl), tt);
}

from_dict-Describes_example :
    from_dict runtime example
    ≡ (chain runtime (methods_of says) (new_builder "least-privilege-agent") >>= build runtime)
from_dict-Describes_example = from_dict-Describes runtime example says example-Describes
