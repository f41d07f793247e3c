-- ===== src/Policy/Documents/Meaning.antt =====
-- On `from_dict` of asphallea/policy.py: what a document says means the chain of calls of a builder.
use asphallea.Prelude.{
  arith, refl, List, String, [], map, ◌≡◌, ◌∷◌, ◌++◌, ap, some, none, Option, if◌then◌else◌,
}
use asphallea.Prelude.Dict.{Dict}
use asphallea.Prelude.Int.{ℤ}
use asphallea.Policy.Documents.Values.{entries_of, get, item_under, list_under, table_under}
use asphallea.Policy.Documents.Schema.{
  ArgsAre, CallsAre, CapIs, Describes, Limits, LimitsAre, Network, NetworkIs, Paths, PathsAre,
  RateIs, Rows, Schema, SectionIs, Tools, ToolsAre, allow_call, cap_call, declare_call,
  filesystem_methods, host_values, limits_methods, max_call, methods_of, network_methods, rate_call,
  read_call, refuse_call, said, spend_methods, text_items, timeout_methods, tools_methods,
  write_call,
}
use asphallea.Policy.Documents.Sections.{
  declare_tool, each_entry, filesystem_keys, limits_keys, load_filesystem, load_limits,
  load_network, load_spend, load_tools, network_keys, set_calls, set_cap, set_rate, tools_keys,
}
use asphallea.Policy.Builder.{Builder, Method, apply, chain, build, new_builder}
use asphallea.Runtime.{Runtime, find, truthy}
use asphallea.Value.{Fields, Value, end, field, items}
use asphallea.Policy.Documents.{fill, from_dict, load_sections, policy_keys, required_name, section}
use asphallea.Errors.{>>=-ap, Result, ok, ◌>>=◌}
use asphallea.Policy.Documents.Chain.{
  KeysIn-reject_keys, KeysIn-reject_unknown, chain-one, declare_tool-call, each-chain,
  each_entry-chain, entries, entries_of-Tabled, or_no_items-Listed, set_calls-call, set_cap-call,
  set_default-call, set_rate-call, set_timeout-chain, then-chain,
}

module _ (rt : Runtime) where
  load_tools-chain :
      (fs : Fields) (t : Tools) (b : Builder)
      → ToolsAre fs t
      → load_tools rt (Value.dict fs) b ≡ chain rt (tools_methods t) b
  unfolding load_tools get list_under table_under
  load_tools-chain fs t b (known, allow, deny, args) =
      let (table, rows) = entries_of-Tabled ArgsAre (find "args" fs) t.args args in
      rw
        (
          KeysIn-reject_unknown rt tools_keys fs "tools" known,
          or_no_items-Listed (find "allow" fs) t.allow allow,
          or_no_items-Listed (find "deny" fs) t.deny deny,
          table,
        )
        (then-chain rt _ _ _ _ _ (each-chain rt _ allow_call (λ s b. refl) t.allow b)
          (λ with_allowed.
            then-chain rt _ _ _ _ _ (each-chain rt _ refuse_call (λ s b. refl) t.deny with_allowed)
              (λ with_refused.
                each_entry-chain rt (declare_tool rt) ArgsAre declare_call
                  (λ k v a b h. declare_tool-call rt k v a b h) (entries (find "args" fs)) t.args
                  with_refused rows)))

  load_filesystem-chain :
      (fs : Fields) (p : Paths) (b : Builder)
      → PathsAre fs p
      → load_filesystem rt (Value.dict fs) b ≡ chain rt (filesystem_methods p) b
  unfolding load_filesystem get list_under
  load_filesystem-chain fs p b (known, read, write) =
      rw
        (
          KeysIn-reject_unknown rt filesystem_keys fs "filesystem" known,
          or_no_items-Listed (find "read" fs) p.read read,
          or_no_items-Listed (find "write" fs) p.write write,
        )
        (then-chain rt _ _ _ _ _ (each-chain rt _ read_call (λ s b. refl) p.read b)
          (each-chain rt _ write_call (λ s b. refl) p.write))

  items-host_values : (hosts : List String) → items (text_items hosts) ≡ host_values hosts
  items-host_values [] = refl
  items-host_values (h ∷ hosts) = ap (◌∷◌ (Value.str h)) (items-host_values hosts)

  load_network-chain :
      (fs : Fields) (n : Network) (b : Builder)
      → NetworkIs fs n
      → load_network rt (Value.dict fs) b ≡ chain rt (network_methods n) b
  unfolding load_network get list_under chain
  load_network-chain fs n b (known, default, allowed, refused) =
      rw
        (
          KeysIn-reject_unknown rt network_keys fs "network" known,
          set_default-call rt (find "default" fs) n.is_open b default,
          or_no_items-Listed (find "allow_hosts" fs) n.allow_hosts allowed,
          or_no_items-Listed (find "deny_hosts" fs) n.deny_hosts refused,
          items-host_values n.allow_hosts,
          items-host_values n.deny_hosts,
        )
        (>>=-ap (apply rt (if n.is_open then Method.allow_network else Method.deny_network) b)
          (λ with_default.
            >>=-ap (apply rt (Method.allow_hosts (host_values n.allow_hosts)) with_default)
              (λ with_allowed.
                chain-one rt (Method.deny_hosts (host_values n.deny_hosts)) with_allowed)))

  -- The calls and the rates, and then the limits for the core.
  limits_tail-chain :
      (calls rates : Fields) (l : Limits) (b : Builder)
      → Rows CallsAre calls l.calls
      → Rows RateIs rates l.rates
      → (each_entry (set_calls rt) calls b >>= λ with_calls.
          each_entry (set_rate rt) rates with_calls >>= λ with_rate.
          apply rt (Method.limits l.core) with_rate)
        ≡ chain rt (map max_call l.calls ++ (map rate_call l.rates ++ Method.limits l.core ∷ [])) b
  limits_tail-chain calls rates l b are_calls are_rates =
      then-chain rt _ _ _ _ _
        (each_entry-chain rt (set_calls rt) CallsAre max_call
          (λ k v n b h. set_calls-call rt k v n b h) calls l.calls b are_calls)
        (λ with_calls.
          then-chain rt _ _ _ _ _
            (each_entry-chain rt (set_rate rt) RateIs rate_call
              (λ k v r b h. set_rate-call rt k v r b h) rates l.rates with_calls are_rates)
            (chain-one rt (Method.limits l.core)))

  load_limits-chain :
      (fs : Fields) (l : Limits) (b : Builder)
      → LimitsAre fs l
      → load_limits rt (Value.dict fs) b ≡ chain rt (limits_methods l) b
  unfolding load_limits get table_under item_under
  load_limits-chain fs l b
        (known, timeout, calls, rates, cpu, memory, file_size, processes, files) =
      let (calls_table, call_rows) = entries_of-Tabled CallsAre (find "calls" fs) l.calls calls in
      let (rates_table, rate_rows) = entries_of-Tabled RateIs (find "rate" fs) l.rates rates in
      rw
        (
          KeysIn-reject_unknown rt limits_keys fs "limits" known,
          set_timeout-chain rt (find "timeout_seconds" fs) l.timeout b timeout,
          calls_table,
          rates_table,
          cpu,
          memory,
          file_size,
          processes,
          files,
        )
        (then-chain rt (timeout_methods l.timeout) _ b _ _ refl λ with_timeout.
          limits_tail-chain (entries (find "calls" fs)) (entries (find "rate" fs)) l with_timeout
            call_rows rate_rows)

  load_spend-chain :
      (fs : Fields) (caps : Dict ℤ) (b : Builder)
      → Rows CapIs fs caps
      → load_spend rt (Value.dict fs) b ≡ chain rt (spend_methods caps) b
  unfolding load_spend entries_of
  load_spend-chain fs caps b rows =
      each_entry-chain rt (set_cap rt) CapIs cap_call (λ k v n b h. set_cap-call rt k v n b h) fs
        caps b rows

  -- A section that may be missing.
  fill-chain :
      {X : Type 0} (load : Value → Builder → Result Builder) (D : Fields → X → Type 0)
      (methods : X → List Method) (o : Option Value) (x : Option X) (b : Builder)
      → ((fs : Fields) (x : X) (b : Builder)
          → D fs x
          → load (Value.dict fs) b ≡ chain rt (methods x) b)
      → SectionIs D o x
      → fill load o b ≡ chain rt (said methods x) b
  unfolding fill truthy chain
  fill-chain load D methods none none b each h = refl
  fill-chain load D methods (some Value.null) none b each h = refl
  fill-chain load D methods (some (Value.dict end)) none b each h = refl
  fill-chain load D methods (some (Value.dict (field k v fs))) (some x) b each h =
      each (field k v fs) x b h
  fill-chain load D methods o x b each h = absurd h

  load_sections-chain :
      (document : Fields) (s : Schema) (b : Builder)
      → Describes policy_keys document s
      → load_sections rt document b ≡ chain rt (methods_of s) b
  unfolding load_sections section methods_of
  load_sections-chain document s b h =
      then-chain rt (said tools_methods s.tools) _ b _ _
        (fill-chain (load_tools rt) ToolsAre tools_methods _ s.tools b load_tools-chain h.tools)
        λ with_tools.
          then-chain rt (said filesystem_methods s.filesystem) _ with_tools _ _
            (fill-chain (load_filesystem rt) PathsAre filesystem_methods _ s.filesystem with_tools
              load_filesystem-chain h.filesystem)
            λ with_paths.
              then-chain rt (said network_methods s.network) _ with_paths _ _
                (fill-chain (load_network rt) NetworkIs network_methods _ s.network with_paths
                  load_network-chain h.network)
                λ with_network.
                  then-chain rt (said limits_methods s.limits) _ with_network _ _
                    (fill-chain (load_limits rt) LimitsAre limits_methods _ s.limits with_network
                      load_limits-chain h.limits)
                    λ with_limits.
                      fill-chain (load_spend rt) (Rows CapIs) spend_methods _ s.spend with_limits
                        load_spend-chain h.spend

  required_name-Describes :
      (document : Fields) (s : Schema)
      → Describes policy_keys document s
      → required_name rt document ≡ ok s.name
  unfolding required_name truthy
  required_name-Describes document s h = ground (arith, h.name, h.named)

-- A document that says what a schema holds, with a name that is not empty, loads as the chain of the
-- corresponding calls of a builder and `build`: it makes the same policy or raises the same exception. The keys
-- may stand in any order and be missing, a section, a table or a list may be null, the name of an argument may
-- stand by itself or in a list, and a timeout may be a whole number or a float; a network section that does not
-- say otherwise closes the network. Names, hosts, paths and tools are texts and counts are whole numbers.
pub from_dict-Describes :
    (rt : Runtime) (document : Fields) (s : Schema)
    → Describes policy_keys document s
    → from_dict rt document ≡ (chain rt (methods_of s) (new_builder s.name) >>= build rt)
unfolding from_dict
from_dict-Describes rt document s h =
    rw
      (
        KeysIn-reject_keys rt policy_keys document "unknown policy keys: " h.known,
        required_name-Describes rt document s h,
      )
      (ap (λ m. m >>= build rt) (load_sections-chain rt document s (new_builder s.name) h))
