-- ===== src/Policy/Documents/Known.antt =====
-- On the documents of `from_dict` of asphallea/policy.py: what it is for a document to have only keys of the
-- schema, and what `_reject_unknown` lets pass.
use asphallea.Prelude.{
  refl, is_empty, keep, all, not, Bool, List, Option, String, [], arith, none, some, true, ◌<>◌,
  ◌≡◌, ◌&&◌, ◌∷◌, Bool-cases, inl, inr, false,
}
use asphallea.Runtime.{find, iterate, dict_keys, truthy, Runtime}
use asphallea.Policy.Documents.{policy_keys}
use asphallea.Policy.Documents.Sections.{
  tools_keys, args_keys, filesystem_keys, network_keys, limits_keys, rate_keys, spend_keys,
  each_entry,
}
use asphallea.Policy.Documents.Values.{
  get, reject_keys, reject_unknown, or_empty, is_known, entries_of, hashable_items, table_under,
  or_empty_dict,
}
use asphallea.Errors.{ok, Result-cases, >>=-ok, Result, raise, type_error}
use asphallea.Value.{Value, Items, Fields, items, end, field}
use asphallea.Policy.Builder.{Builder}

-- A dict has only known keys; no other value has keys.
abbrev pub keys_known : List String → Value → Bool
keys_known known (Value.dict fs) = all (is_known known) (items (dict_keys fs))
keys_known known v = true

abbrev pub values_known : List String → Fields → Bool
values_known known end = true
values_known known (field k v fs) = keys_known known v && values_known known fs

-- The same, of every value of a table that stands under a key.
abbrev pub table_of : Option Value → Fields
table_of (some (Value.dict fs)) = fs
table_of v = end

abbrev pub table_known : List String → String → Value → Bool
table_known known key (Value.dict fs) = values_known known (table_of (find key fs))
table_known known key v = true

abbrev pub if_given : (Value → Bool) → Option Value → Bool
if_given test none = true
if_given test (some v) = test v

-- Every key of the document, of its sections and of the tables in them is one of the schema's.
unfoldable pub is_known_document : Fields → Bool
is_known_document document =
    all (is_known policy_keys) (items (dict_keys document))
    && if_given (λ v. keys_known tools_keys v && table_known args_keys "args" v)
        (find "tools" document)
    && if_given (keys_known filesystem_keys) (find "filesystem" document)
    && if_given (keys_known network_keys) (find "network" document)
    && if_given (λ v. keys_known limits_keys v && table_known rate_keys "rate" v)
        (find "limits" document)
    && values_known spend_keys (table_of (find "spend" document))

pub keep-all :
    (p : Value → Bool) (vs : List Value)
    → is_empty (keep (λ v. not (p v)) vs) ≡ true
    → all p vs ≡ true
keep-all p [] h = refl
keep-all p (v ∷ vs) h = ground (arith, keep-all p vs)

pub reject_keys_known :
    (rt : Runtime) (keys : Items) (known : List String) (message : String) {u : Unit {0}}
    → reject_keys rt keys known message ≡ ok u
    → all (is_known known) (items keys) ≡ true
unfolding reject_keys
reject_keys_known rt keys known message passed = ground (
  arith,
  keep-all (is_known known) (items keys),
  Result-cases (rt.sorted_repr (keep (λ k. not (is_known known k)) (items keys))),
)

pub reject_unknown_known :
    (rt : Runtime) (v : Value) (known : List String) (place : String) {u : Unit {0}}
    → reject_unknown rt v known place ≡ ok u
    → keys_known known v ≡ true
unfolding reject_unknown iterate
reject_unknown_known rt (Value.dict fs) known place {u} passed =
    elim (Bool-cases (hashable_items (dict_keys fs))) [
      | inl fine ↦
          let shown : reject_keys rt (dict_keys fs) known ("unknown keys in " <> place <> ": ")
              ≡ ok u =
            rw fine at passed in
          reject_keys_known rt (dict_keys fs) known ("unknown keys in " <> place <> ": ") shown
      | inr bad ↦
          let stopped : raise (type_error "unhashable type") ≡ ok u = rw bad at passed in
          absurd (ground arith)
    ]
reject_unknown_known rt v known place passed = refl

pub keys_known-or_empty :
    (known : List String) (v : Value)
    → keys_known known (or_empty v) ≡ true
    → keys_known known v ≡ true
unfolding truthy
keys_known-or_empty known (Value.dict end) h = refl
keys_known-or_empty known (Value.dict (field k v fs)) h = h
keys_known-or_empty known v h = refl

module _ (known : List String) (step : Value → Value → Builder → Result Builder) where
  pub each_entry_known :
      ((k v : Value) (b b' : Builder) → step k v b ≡ ok b' → keys_known known v ≡ true)
      → (fs : Fields) (b : Builder) {b' : Builder} → each_entry step fs b ≡ ok b'
      → values_known known fs ≡ true
  unfolding each_entry
  each_entry_known checks end b done = refl
  each_entry_known checks (field k v fs) b done =
      let (next, first, rest) = >>=-ok (step k v b) (each_entry step fs) done in
      ground (arith, checks k v b next first, each_entry_known checks fs next rest)

pub entries_known :
    (known : List String) (o : Option Value) {fs : Fields}
    → entries_of (or_empty_dict o) ≡ ok fs
    → values_known known fs ≡ true
    → values_known known (table_of o) ≡ true
unfolding entries_of truthy
entries_known known none found h = refl
entries_known known (some (Value.dict end)) found h = refl
entries_known known (some (Value.dict (field k v fs))) found h = ground arith
entries_known known (some v) found h = refl

pub table_under_known :
    (known : List String) (v : Value) (key : String) {fs : Fields}
    → table_under v key ≡ ok fs
    → values_known known fs ≡ true
    → table_known known key v ≡ true
unfolding table_under get
table_under_known known (Value.dict entries) key found h =
    entries_known known (find key entries) found h
table_under_known known v key found h = refl

-- No value that is false has a key.
pub empty_known : (known : List String) (v : Value) → truthy v ≡ false → keys_known known v ≡ true
unfolding truthy
empty_known known (Value.dict end) h = refl
empty_known known (Value.dict (field k v fs)) h = absurd (ground arith)
empty_known known v h = refl

pub empty_table :
    (known : List String) (key : String) (v : Value)
    → truthy v ≡ false
    → table_known known key v ≡ true
unfolding truthy find
empty_table known key (Value.dict end) h = refl
empty_table known key (Value.dict (field k v fs)) h = absurd (ground arith)
empty_table known key v h = refl

pub empty_values :
    (known : List String) (v : Value)
    → truthy v ≡ false
    → values_known known (table_of (some v)) ≡ true
unfolding truthy
empty_values known (Value.dict end) h = refl
empty_values known (Value.dict (field k v fs)) h = absurd (ground arith)
empty_values known v h = refl

pub if_given_table :
    (known : List String) (found : Option Value)
    → if_given (λ v. values_known known (table_of (some v))) found
      ≡ values_known known (table_of found)
if_given_table known none = refl
if_given_table known (some v) = refl
