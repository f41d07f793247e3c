-- ===== src/Policy/Documents/Strict.antt =====
-- On `from_dict` of asphallea/policy.py: the keys of the documents that it loads.
use asphallea.Prelude.{
  refl, Bool, Option, arith, none, some, true, ◌<>◌, ◌≡◌, ◌&&◌, Bool-cases, inl, inr, false,
}
use asphallea.Runtime.{find, dict_keys, truthy, Runtime, str_of}
use asphallea.Policy.Documents.{fill, section, policy_keys, from_dict, load_sections, required_name}
use asphallea.Policy.Documents.Sections.{
  each, tools_keys, args_keys, filesystem_keys, network_keys, limits_keys, rate_keys, spend_keys,
  each_entry, declare_tool, load_tools, set_cap, set_rate, load_filesystem, load_limits,
  load_network, load_spend, set_timeout,
}
use asphallea.Policy.Documents.Values.{
  reject_keys, reject_unknown, or_empty, entries_of, table_under, list_under, item_under,
}
use asphallea.Errors.{ok, >>=-ok, Result}
use asphallea.Value.{Value, Fields, items}
use asphallea.Policy.Builder.{Builder, new_builder}
use asphallea.Policy.Documents.Known.{
  keys_known, values_known, table_of, table_known, if_given, is_known_document, reject_keys_known,
  reject_unknown_known, keys_known-or_empty, each_entry_known, table_under_known, empty_known,
  empty_table, empty_values, if_given_table,
}
use asphallea.Policy.{Policy}

module _ (rt : Runtime) where
  declare_tool_known :
      (k v : Value) (b b' : Builder) → declare_tool rt k v b ≡ ok b' → keys_known args_keys v ≡ true
  unfolding declare_tool
  declare_tool_known k v b b' done =
      let (u, checked, rest) =
        >>=-ok (reject_unknown rt (or_empty v) args_keys ("tools.args." <> str_of rt k)) _ done in
      keys_known-or_empty args_keys v
        (reject_unknown_known rt (or_empty v) args_keys ("tools.args." <> str_of rt k) checked)

  set_rate_known :
      (k v : Value) (b b' : Builder) → set_rate rt k v b ≡ ok b' → keys_known rate_keys v ≡ true
  unfolding set_rate
  set_rate_known k v b b' done =
      let (u, checked, rest) =
        >>=-ok (reject_unknown rt (or_empty v) rate_keys ("limits.rate." <> str_of rt k)) _ done in
      keys_known-or_empty rate_keys v
        (reject_unknown_known rt (or_empty v) rate_keys ("limits.rate." <> str_of rt k) checked)

  set_cap_known :
      (k v : Value) (b b' : Builder) → set_cap rt k v b ≡ ok b' → keys_known spend_keys v ≡ true
  unfolding set_cap
  set_cap_known k v b b' done =
      let (u, checked, rest) =
        >>=-ok (reject_unknown rt (or_empty v) spend_keys ("spend." <> str_of rt k)) _ done in
      keys_known-or_empty spend_keys v
        (reject_unknown_known rt (or_empty v) spend_keys ("spend." <> str_of rt k) checked)

  load_tools_known :
      (v : Value) (b : Builder) {b' : Builder}
      → load_tools rt v b ≡ ok b'
      → (keys_known tools_keys v && table_known args_keys "args" v) ≡ true
  unfolding load_tools
  load_tools_known v b done =
      let (u, checked, rest) = >>=-ok (reject_unknown rt v tools_keys "tools") _ done in
      let (allowed, _, rest1) = >>=-ok (list_under v "allow") _ rest in
      let (b1, _, rest2) = >>=-ok (each _ (items allowed) b) _ rest1 in
      let (refused, _, rest3) = >>=-ok (list_under v "deny") _ rest2 in
      let (b2, _, rest4) = >>=-ok (each _ (items refused) b1) _ rest3 in
      let (args, found, rest5) = >>=-ok (table_under v "args") _ rest4 in
      ground (
        arith,
        reject_unknown_known rt v tools_keys "tools" checked,
        table_under_known args_keys v "args" found,
        each_entry_known args_keys (declare_tool rt) declare_tool_known args b2 rest5,
      )

  load_filesystem_known :
      (v : Value) (b : Builder) {b' : Builder}
      → load_filesystem rt v b ≡ ok b'
      → keys_known filesystem_keys v ≡ true
  unfolding load_filesystem
  load_filesystem_known v b done =
      let (u, checked, rest) = >>=-ok (reject_unknown rt v filesystem_keys "filesystem") _ done in
      reject_unknown_known rt v filesystem_keys "filesystem" checked

  load_network_known :
      (v : Value) (b : Builder) {b' : Builder}
      → load_network rt v b ≡ ok b'
      → keys_known network_keys v ≡ true
  unfolding load_network
  load_network_known v b done =
      let (u, checked, rest) = >>=-ok (reject_unknown rt v network_keys "network") _ done in
      reject_unknown_known rt v network_keys "network" checked

  load_limits_known :
      (v : Value) (b : Builder) {b' : Builder}
      → load_limits rt v b ≡ ok b'
      → (keys_known limits_keys v && table_known rate_keys "rate" v) ≡ true
  unfolding load_limits
  load_limits_known v b done =
      let (u, checked, rest) = >>=-ok (reject_unknown rt v limits_keys "limits") _ done in
      let (timeout, _, rest1) = >>=-ok (item_under v "timeout_seconds") _ rest in
      let (b1, _, rest2) = >>=-ok (set_timeout rt timeout b) _ rest1 in
      let (calls, _, rest3) = >>=-ok (table_under v "calls") _ rest2 in
      let (b2, _, rest4) = >>=-ok (each_entry _ calls b1) _ rest3 in
      let (rates, found, rest5) = >>=-ok (table_under v "rate") _ rest4 in
      let (b3, made, _) = >>=-ok (each_entry (set_rate rt) rates b2) _ rest5 in
      ground (
        arith,
        reject_unknown_known rt v limits_keys "limits" checked,
        table_under_known rate_keys v "rate" found,
        each_entry_known rate_keys (set_rate rt) set_rate_known rates b2 made,
      )

  load_spend_known :
      (v : Value) (b : Builder) {b' : Builder}
      → load_spend rt v b ≡ ok b'
      → values_known spend_keys (table_of (some v)) ≡ true
  unfolding load_spend entries_of
  load_spend_known (Value.dict fs) b done =
      each_entry_known spend_keys (set_cap rt) set_cap_known fs b done
  load_spend_known v b done = refl

fill_known :
    (test : Value → Bool) (load : Value → Builder → Result Builder)
    → ((v : Value) → truthy v ≡ false → test v ≡ true)
    → ((v : Value) (b b' : Builder) → load v b ≡ ok b' → test v ≡ true)
    → (found : Option Value) (b : Builder) {b' : Builder} → fill load found b ≡ ok b'
    → if_given test found ≡ true
unfolding fill
fill_known test load empty checks none b done = refl
fill_known test load empty checks (some v) b {b'} done = elim (Bool-cases (truthy v)) [
  | inl filled ↦ checks v b b' (rw filled at done)
  | inr falsy ↦ empty v falsy
]

-- Every document that loads has only keys of the schema: at its top, in each of its sections that is a
-- mapping, and in each entry of `tools.args`, `limits.rate` and `spend` that is one.
pub from_dict_strict :
    (rt : Runtime) (document : Fields) {p : Policy}
    → from_dict rt document ≡ ok p
    → is_known_document document ≡ true
unfolding from_dict load_sections section is_known_document
from_dict_strict rt document loaded =
    let (u, checked, rest) =
      >>=-ok (reject_keys rt (dict_keys document) policy_keys "unknown policy keys: ") _ loaded in
    let (name, _, rest1) = >>=-ok (required_name rt document) _ rest in
    let (b, sections, _) = >>=-ok (load_sections rt document (new_builder name)) _ rest1 in
    let (b1, tools, rest2) =
      >>=-ok (fill (load_tools rt) (find "tools" document) (new_builder name)) _ sections in
    let (b2, filesystem, rest3) =
      >>=-ok (fill (load_filesystem rt) (find "filesystem" document) b1) _ rest2 in
    let (b3, network, rest4) =
      >>=-ok (fill (load_network rt) (find "network" document) b2) _ rest3 in
    let (b4, limits, spend) = >>=-ok (fill (load_limits rt) (find "limits" document) b3) _ rest4 in
    ground (
      arith,
      reject_keys_known rt (dict_keys document) policy_keys "unknown policy keys: " checked,
      fill_known (λ v. keys_known tools_keys v && table_known args_keys "args" v) (load_tools rt)
          (λ v falsy.
            ground (arith, empty_known tools_keys v falsy, empty_table args_keys "args" v falsy))
          (λ v b b' done. load_tools_known rt v b done) (find "tools" document) (new_builder name)
          tools,
      fill_known (keys_known filesystem_keys) (load_filesystem rt) (empty_known filesystem_keys)
          (λ v b b' done. load_filesystem_known rt v b done) (find "filesystem" document) b1
          filesystem,
      fill_known (keys_known network_keys) (load_network rt) (empty_known network_keys)
          (λ v b b' done. load_network_known rt v b done) (find "network" document) b2 network,
      fill_known (λ v. keys_known limits_keys v && table_known rate_keys "rate" v) (load_limits rt)
          (λ v falsy.
            ground (arith, empty_known limits_keys v falsy, empty_table rate_keys "rate" v falsy))
          (λ v b b' done. load_limits_known rt v b done) (find "limits" document) b3 limits,
      fill_known (λ v. values_known spend_keys (table_of (some v))) (load_spend rt)
          (empty_values spend_keys) (λ v b b' done. load_spend_known rt v b done)
          (find "spend" document) b4 spend,
      if_given_table spend_keys (find "spend" document),
    )
