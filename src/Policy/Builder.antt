-- ===== src/Policy/Builder.antt =====
-- `PolicyBuilder` and the checks of `__post_init__` in asphallea/policy.py. A set is the list of its
-- elements.
pub mod Sound
pub mod Paths
pub mod Boundary
use asphallea.Prelude.{
  Bool, List, Option, String, [], contains, keep, none, not, some, if◌then◌else◌, ◌==◌, ◌<>◌, ◌||◌,
  ◌∷◌, ◌++◌,
}
use asphallea.Errors.{Result, ok, raise, policy_error, ◌>>=◌}
use asphallea.Prelude.Dict.{Dict, insert}
use asphallea.Policy.{Policy, RateLimit, ResourceLimits, ToolArgs}
use asphallea.Runtime.{Runtime}
use asphallea.Value.{Value}
use asphallea.Decision.{allow}
use asphallea.Prelude.Int.{leb_ℤ, pos, ℤ}
use asphallea.Policy.Hosts.{network_host}

-- The keys of a dict or the elements of a set, with one more.
unfoldable pub add : String → List String → List String
add x xs = if contains xs x then xs else xs ++ x ∷ []

unfoldable pub add_all : List String → List String → List String
add_all xs [] = xs
add_all xs (y ∷ ys) = add_all (add y xs) ys

-- `tuple(dict.fromkeys(xs))`
abbrev pub from_keys : List String → List String
from_keys xs = add_all [] xs

-- `RateLimit(max_calls, window_seconds)`
unfoldable pub make_rate_limit : ℤ → ℤ → Result RateLimit
make_rate_limit max_calls window_seconds =
    if leb_ℤ max_calls (pos 0)
    then raise (policy_error "rate limit max_calls must be positive")
    else if leb_ℤ window_seconds (pos 0)
    then raise (policy_error "rate limit window_seconds must be positive")
    else ok (record { max_calls = max_calls; window_seconds = window_seconds })

-- `Policy(…)`
unfoldable pub make_policy : Runtime → Policy → Result Policy
make_policy rt p =
    if p.name == ""
    then raise (policy_error "policy name must be a non-empty string")
    else if (p.network == "deny") || (p.network == "allow")
    then ok p
    else raise
        (policy_error ("network must be 'deny' or 'allow', got " <> rt.repr (Value.str p.network)))

-- `class PolicyBuilder`
pub record Builder : Type 0 where
  pub name : String
  pub allowed_tools : Option (List String)
  pub denied_tools : List String
  pub tool_args : Dict ToolArgs
  pub read_paths : List String
  pub write_paths : List String
  pub network : String
  pub network_allow_hosts : List String
  pub network_deny_hosts : List String
  pub max_calls : Dict ℤ
  pub rate_limits : Dict RateLimit
  pub spend_caps : Dict ℤ
  pub timeout_seconds : Option ℤ
  pub limits : ResourceLimits

abbrev pub no_limits : ResourceLimits
no_limits = record {
  cpu_seconds = none;
  memory_mb = none;
  max_file_size_mb = none;
  max_processes = none;
  max_open_files = none;
}

-- `PolicyBuilder(name)`
abbrev pub new_builder : String → Builder
new_builder name = record {
  name = name;
  allowed_tools = none;
  denied_tools = [];
  tool_args = [];
  read_paths = [];
  write_paths = [];
  network = "deny";
  network_allow_hosts = [];
  network_deny_hosts = [];
  max_calls = [];
  rate_limits = [];
  spend_caps = [];
  timeout_seconds = none;
  limits = no_limits;
}

abbrev or_empty_set : Option (List String) → List String
or_empty_set none = []
or_empty_set (some names) = names

-- The methods of the builder, with their arguments.
pub data Method : Type 0 where
  allow_tools deny_tools read_paths write_paths : List String → Method
  declare : String → ToolArgs → Bool → Method
  deny_network allow_network : Method
  allow_hosts deny_hosts : List Value → Method
  max_calls spend_cap : String → ℤ → Method
  rate_limit : String → Option ℤ → Option ℤ → Method
  timeout : ℤ → Method
  limits : ResourceLimits → Method

-- `allow_tool`
abbrev pub allow_tool : String → Builder → Builder
allow_tool tool b = record b { allowed_tools = some (add tool (or_empty_set b.allowed_tools)) }

-- `allow_tools`. With no name it leaves the builder as it was.
unfoldable pub allow_all : List String → Builder → Builder
allow_all [] b = b
allow_all (tool ∷ tools) b = allow_all tools (allow_tool tool b)

-- `for host in hosts: hosts_set.add(network_host(host))`
unfoldable pub add_hosts : Runtime → List Value → List String → Result (List String)
add_hosts rt [] hosts = ok hosts
add_hosts rt (v ∷ vs) hosts = do host ← network_host rt v; add_hosts rt vs (add host hosts)

-- The rate of `rate_limit`: exactly one of the two.
unfoldable pub rate_of : Option ℤ → Option ℤ → Result RateLimit
unfolding make_rate_limit
rate_of (some n) none = make_rate_limit n (pos 60000000000)
rate_of none (some n) = make_rate_limit n (pos 1000000000)
rate_of _ _ = raise (policy_error "rate_limit requires exactly one of per_minute or per_second")

-- A call of a method.
unfoldable pub apply : Runtime → Method → Builder → Result Builder
unfolding add_all allow_all add_hosts rate_of
apply rt (Method.allow_tools tools) b = ok (allow_all tools b)
apply rt (Method.deny_tools tools) b = ok (record b { denied_tools = add_all b.denied_tools tools })
apply rt (Method.declare tool args allow) b =
    let b' = record b { tool_args = insert tool args b.tool_args } in
    ok (if allow then allow_tool tool b' else b')
apply rt (Method.read_paths paths) b = ok (record b { read_paths = b.read_paths ++ paths })
apply rt (Method.write_paths paths) b = ok (record b { write_paths = b.write_paths ++ paths })
apply rt Method.deny_network b = ok (record b { network = "deny" })
apply rt Method.allow_network b = ok (record b { network = "allow" })
apply rt (Method.allow_hosts hosts) b = do
  hosts' ← add_hosts rt hosts b.network_allow_hosts
  ok (record b { network_allow_hosts = hosts' })
apply rt (Method.deny_hosts hosts) b = do
  hosts' ← add_hosts rt hosts b.network_deny_hosts
  ok (record b { network_deny_hosts = hosts' })
apply rt (Method.max_calls tool n) b =
    if leb_ℤ (pos 0) n
    then ok (record b { max_calls = insert tool n b.max_calls })
    else raise (policy_error "max_calls must be non-negative")
apply rt (Method.rate_limit tool per_minute per_second) b = do
  rl ← rate_of per_minute per_second
  ok (record b { rate_limits = insert tool rl b.rate_limits })
apply rt (Method.spend_cap tool n) b =
    if leb_ℤ (pos 0) n
    then ok (record b { spend_caps = insert tool n b.spend_caps })
    else raise (policy_error "spend_cap max_calls must be non-negative")
apply rt (Method.timeout seconds) b =
    if leb_ℤ seconds (pos 0)
    then raise (policy_error "timeout seconds must be positive")
    else ok (record b { timeout_seconds = some seconds })
apply rt (Method.limits l) b = ok (record b { limits = l })

-- A chain of calls. An exception ends it.
unfoldable pub chain : Runtime → List Method → Builder → Result Builder
chain rt [] b = ok b
chain rt (m ∷ ms) b = do b' ← apply rt m b; chain rt ms b'

-- `_normalize_path` of each path
unfoldable pub normalize_all : Runtime → List String → Result (List String)
normalize_all rt [] = ok []
normalize_all rt (path ∷ paths) = do
  real ← rt.real_path path
  rest ← normalize_all rt paths
  ok (real ∷ rest)

-- `h for h in hosts if h`
abbrev pub non_empty_hosts : List String → List String
non_empty_hosts hosts = keep (λ h. not (h == "")) hosts

-- The policy that `build` passes to `Policy`.
abbrev pub policy_of : Builder → List String → List String → Policy
policy_of b reads writes = record {
  name = b.name;
  allowed_tools = b.allowed_tools;
  denied_tools = b.denied_tools;
  tool_args = b.tool_args;
  read_paths = from_keys (reads ++ writes);
  write_paths = writes;
  network = b.network;
  network_allow_hosts = non_empty_hosts b.network_allow_hosts;
  network_deny_hosts = non_empty_hosts b.network_deny_hosts;
  max_calls = b.max_calls;
  rate_limits = b.rate_limits;
  spend_caps = b.spend_caps;
  timeout_seconds = b.timeout_seconds;
  limits = b.limits;
}

-- `PolicyBuilder.build`
unfoldable pub build : Runtime → Builder → Result Policy
unfolding make_policy
build rt b = do
  read ← normalize_all rt b.read_paths
  write ← normalize_all rt b.write_paths
  make_policy rt (policy_of b (from_keys read) (from_keys write))
