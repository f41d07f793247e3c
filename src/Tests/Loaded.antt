-- ===== src/Tests/Loaded.antt =====
-- A policy from a document.
use asphallea.Prelude.{String, refl, true, none, some, [], ◌∷◌, ◌≡◌, str_dec}
use asphallea.Policy.Builder.{
  build, add, apply, no_limits, add_all, add_hosts, allow_all, make_policy, make_rate_limit,
  normalize_all, rate_of,
}
use asphallea.Policy.Documents.Sections.{
  each, cap_of, declare_tool, each_entry, load_filesystem, load_limits, load_network, load_spend,
  load_tools, rate_arguments, set_calls, set_cap, set_default, set_rate, set_timeout,
}
use asphallea.Policy.Documents.Values.{
  get, hashable, as_names, entries_of, item_under, list_under, reject_keys, reject_unknown,
  table_under,
}
use asphallea.Policy.Documents.{fill, section, from_dict, load_sections, required_name}
use asphallea.Policy.Documents.Strict.{from_dict_strict}
use asphallea.Policy.Documents.Known.{is_known_document}
use asphallea.Tests.Data.{runtime}
use asphallea.Policy.{Policy}
use asphallea.Value.{Fields, Value, cons, end, field, nil}
use asphallea.Prelude.Int.{pos}
use asphallea.Runtime.{find, iterate, to_float, to_int, truthy}
use asphallea.Prelude.Dict.{insert}

abbrev texts : String → Value
texts s = Value.list (cons (Value.str s) nil)

-- name, tools, filesystem, network, limits and spend, as a file has them
abbrev document : Fields
document = field (Value.str "name") (Value.str "agent") (
    field (Value.str "tools")
      (Value.dict (
        field (Value.str "allow") (texts "save") (
          field (Value.str "args")
            (Value.dict (
              field (Value.str "save")
                (Value.dict (field (Value.str "writes") (Value.str "path") end)) end))
            end)))
      (field (Value.str "filesystem") (Value.dict (field (Value.str "write") (texts "/w") end)) (
        field (Value.str "limits")
          (Value.dict (
            field (Value.str "calls")
              (Value.dict (field (Value.str "save") (Value.int (pos 3)) end))
              (field (Value.str "rate")
                (Value.dict (
                  field (Value.str "save")
                    (Value.dict (field (Value.str "per_minute") (Value.int (pos 2)) end)) end))
                end)))
          end)))

abbrev loaded : Policy
loaded = record {
  name = "agent";
  allowed_tools = some ("save" ∷ []);
  denied_tools = [];
  tool_args = ("save", record { reads = []; writes = "path" ∷ []; network = [] }) ∷ [];
  read_paths = "/w" ∷ [];
  write_paths = "/w" ∷ [];
  network = "deny";
  network_allow_hosts = [];
  network_deny_hosts = [];
  max_calls = ("save", pos 3) ∷ [];
  rate_limits = ("save", record { max_calls = pos 2; window_seconds = pos 60000000000 }) ∷ [];
  spend_caps = [];
  timeout_seconds = none;
  limits = no_limits;
}

from_dict_strict_example : is_known_document document ≡ true
unfolding from_dict load_sections section fill required_name find truthy reject_keys reject_unknown
    hashable iterate get entries_of list_under table_under item_under as_names each each_entry
    declare_tool load_tools load_filesystem load_network set_default set_timeout set_calls
    rate_arguments set_rate load_limits load_spend set_cap cap_of to_int to_float apply add_all add
    allow_all add_hosts rate_of make_rate_limit insert build make_policy normalize_all str_dec
from_dict_strict_example = from_dict_strict runtime document {p = loaded} refl
