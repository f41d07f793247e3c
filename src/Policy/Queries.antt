-- ===== src/Policy/Queries.antt =====
-- The queries of `Policy` in asphallea/policy.py that the engine makes.
use asphallea.Prelude.{
  String, Bool, true, false, List, [], Option, none, some, any, contains, ◌==◌, if◌then◌else◌,
}
use asphallea.Prelude.Dict.{get_or}
use asphallea.Runtime.{Runtime}
use asphallea.Errors.{Result, ok, ◌>>=◌}
use asphallea.Policy.{Policy, ToolArgs}
use asphallea.Policy.Hosts.{host_of, host_matches}

-- `Policy.tool_allowed`
unfoldable pub tool_allowed : Policy → String → Bool
tool_allowed p tool =
    if contains p.denied_tools tool
    then false
    else elim p.allowed_tools [ none ↦ true | some tools ↦ contains tools tool ]

abbrev pub no_args : ToolArgs
no_args = record { reads = []; writes = []; network = [] }

-- `Policy.args_for`
unfoldable pub args_for : Policy → String → ToolArgs
args_for p tool = get_or tool p.tool_args no_args

-- `any(host_matches(host, rule) for rule in rules)`
unfoldable pub covered : List String → String → Bool
covered rules host = any (host_matches host) rules

-- The decision for a host: a denied host wins, then an allowed host, then the default.
unfoldable pub host_allowed : Policy → String → Bool
unfolding covered
host_allowed p host =
    if covered p.network_deny_hosts host
    then false
    else if covered p.network_allow_hosts host
    then true
    else p.network == "allow"

-- `Policy.network_allowed`
unfoldable pub network_allowed : Runtime → Policy → Option String → Result Bool
unfolding host_allowed
network_allowed rt p none = ok (p.network == "allow")
network_allowed rt p (some target) = do host ← host_of rt target; ok (host_allowed p host)
