-- ===== src/Policy.antt =====
-- asphallea/policy.py: the data of a policy. The children model the host rules, the queries, the
-- JSON for the core and the builder.
pub mod Hosts
pub mod Queries
pub mod CoreJson
pub mod Builder
pub mod Documents
use asphallea.Prelude.{String, Bool, List, Option, not, ◌||◌, is_empty}
use asphallea.Prelude.Int.{ℤ}
use asphallea.Prelude.Dict.{Dict}
use asphallea.Value.{Value}

-- `class RateLimit`. A duration counts units of 10⁻⁹ seconds.
pub record RateLimit : Type 0 where
  pub max_calls : ℤ
  pub window_seconds : ℤ

-- `class ResourceLimits`. Nothing checks that a limit is an integer before it goes to the core.
pub record ResourceLimits : Type 0 where
  pub cpu_seconds : Option Value
  pub memory_mb : Option Value
  pub max_file_size_mb : Option Value
  pub max_processes : Option Value
  pub max_open_files : Option Value

-- `class ToolArgs`
pub record ToolArgs : Type 0 where
  pub reads : List String
  pub writes : List String
  pub network : List String

-- `ToolArgs.declared`
unfoldable pub declared : ToolArgs → Bool
declared a = not (is_empty a.reads) || not (is_empty a.writes) || not (is_empty a.network)

-- `class Policy`. A `frozenset` is the list of its elements.
pub record Policy : Type 0 where
  pub name : String
  pub allowed_tools : Option (List String)
  pub denied_tools : List String
  pub tool_args : Dict ToolArgs
  pub read_paths : List String
  pub write_paths : List String
  pub network : String
  pub network_allow_hosts : List String
  pub network_deny_hosts : List String
  pub max_calls : Dict ℤ
  pub rate_limits : Dict RateLimit
  pub spend_caps : Dict ℤ
  pub timeout_seconds : Option ℤ
  pub limits : ResourceLimits
