-- ===== src/Tests/Built.antt =====
-- Policies from chains of calls on a builder.
use asphallea.Prelude.{
  refl, List, [], none, some, str_dec, true, ◌≡◌, ◌∷◌, String, false, ◌==◌, ◌<>◌, ◌↔◌, ◌⊎◌,
}
use asphallea.Policy.Hosts.{
  is_ascii, lower, lower_ascii, strip, begins_scheme, has_code, has_scheme, host_of, is_space,
  lower_char, network_host, rsplit_last, split_first, strip_left, strip_right, ends_with,
  host_matches,
}
use asphallea.Policy.Builder.{
  apply, chain, add, Builder, Method, add_all, add_hosts, allow_all, make_rate_limit, new_builder,
  policy_of, rate_of,
}
use asphallea.Tests.Data.{runtime}
use asphallea.Policy.{Policy}
use asphallea.Value.{Value}
use asphallea.Prelude.Dict.{insert}
use asphallea.Errors.{ok}
use asphallea.Prelude.Int.{pos}
use asphallea.Policy.Hosts.Matches.{host_matches_iff}

abbrev methods : List Method
methods =
    Method.read_paths ("/r" ∷ "/r" ∷ [])
    ∷ Method.declare "save" (record { reads = []; writes = "path" ∷ []; network = [] }) true
    ∷ Method.write_paths ("/w" ∷ "/r" ∷ [])
    ∷ Method.allow_hosts (Value.str "User@Example.com:80/a" ∷ [])
    ∷ Method.rate_limit "save" (some (pos 5)) none
    ∷ Method.max_calls "save" (pos 3)
    ∷ []

abbrev built : Builder
built = record (new_builder "agent") {
  allowed_tools = some ("save" ∷ []);
  tool_args = ("save", record { reads = []; writes = "path" ∷ []; network = [] }) ∷ [];
  read_paths = "/r" ∷ "/r" ∷ [];
  write_paths = "/w" ∷ "/r" ∷ [];
  network_allow_hosts = "example.com" ∷ [];
  max_calls = ("save", pos 3) ∷ [];
  rate_limits = ("save", record { max_calls = pos 5; window_seconds = pos 60000000000 }) ∷ [];
}

abbrev made : Policy
made = policy_of built ("/r" ∷ []) ("/w" ∷ "/r" ∷ [])

built_test : chain runtime methods (new_builder "agent") ≡ ok built
unfolding chain apply add_all add allow_all add_hosts rate_of make_rate_limit insert network_host
    host_of strip strip_left strip_right is_space has_scheme begins_scheme split_first rsplit_last
    has_code lower is_ascii lower_ascii lower_char str_dec
built_test = refl

-- The read prefixes are the paths of both kinds, each once.
built_paths : made.read_paths ≡ "/r" ∷ "/w" ∷ []
unfolding add_all add str_dec
built_paths = refl

abbrev target : String
target = "api.example.com"

abbrev parent : String
parent = "example.com"

host_matches_iff_example : (host_matches target parent ≡ true) ↔ (
    ((target == "") ≡ false)
    × ((parent == "") ≡ false)
    × ((target ≡ parent) ⊎ ((front : String) × (target ≡ front <> ("." <> parent)))))
host_matches_iff_example = host_matches_iff target parent

host_matches_test :
    (host_matches "api.example.com" "example.com" ≡ true)
    × (host_matches "badexample.com" "example.com" ≡ false)
unfolding host_matches ends_with str_dec
host_matches_test = (refl, refl)
