-- ===== src/Policy/Documents/Values.antt =====
-- What `from_dict` of asphallea/policy.py asks of a value of a document, and `_reject_unknown`.
use asphallea.Prelude.{
  Bool, List, Option, String, [], any, contains, false, is_empty, keep, map, none, not, some, true,
  if◌then◌else◌, ◌<>◌, ◌&&◌, ◌∷◌,
}
use asphallea.Errors.{Result, ok, raise, policy_error, attribute_error, type_error, ◌>>=◌}
use asphallea.Value.{Value, Items, Fields, items, end, nil, cons}
use asphallea.Runtime.{find, is_key, iterate, truthy, Runtime, str_of}

-- `value or {}`
abbrev pub or_empty : Value → Value
or_empty v = if truthy v then v else Value.dict end

-- `value.get(key)`
unfoldable pub get : Value → String → Result (Option Value)
unfolding find
get (Value.dict fs) key = ok (find key fs)
get v key = raise (attribute_error "object has no attribute 'get'")

-- `value.items()`
unfoldable pub entries_of : Value → Result Fields
entries_of (Value.dict fs) = ok fs
entries_of v = raise (attribute_error "object has no attribute 'items'")

abbrev pub or_empty_dict : Option Value → Value
or_empty_dict none = Value.dict end
or_empty_dict (some v) = or_empty v

abbrev pub or_no_items : Option Value → Result Items
or_no_items none = ok nil
or_no_items (some v) = if truthy v then iterate v else ok nil

-- `for x in value.get(key) or []`
unfoldable pub list_under : Value → String → Result Items
unfolding get iterate
list_under v key = do found ← get v key; or_no_items found

-- `(value.get(key) or {}).items()`
unfoldable pub table_under : Value → String → Result Fields
unfolding get entries_of
table_under v key = do found ← get v key; entries_of (or_empty_dict found)

-- `value[key]` if `key in value`. Of the values that are no dicts, a text cannot get here: its
-- characters are no keys of a section.
unfoldable pub item_under : Value → String → Result (Option Value)
unfolding find iterate
item_under (Value.dict fs) key = ok (find key fs)
item_under v key = do
  vs ← iterate v
  (if any (is_key key) (items vs)
      then raise (type_error "indices must be integers or slices, not str")
      else ok none)

-- Whether a value may stand in a set.
unfoldable mutual
  pub hashable : Value → Bool
  hashable (Value.list vs) = false
  hashable (Value.set vs) = false
  hashable (Value.dict fs) = false
  hashable (Value.tuple vs) = hashable_items vs
  hashable _ = true

  pub hashable_items : Items → Bool
  hashable_items nil = true
  hashable_items (cons v vs) = hashable v && hashable_items vs

-- Whether a value is one of the known keys.
abbrev pub is_known : List String → Value → Bool
is_known known (Value.str s) = contains known s
is_known known v = false

-- `unknown = set(keys) - known`, and the exception `if unknown`
unfoldable pub reject_keys : Runtime → Items → List String → String → Result (Unit {0})
reject_keys rt keys known message =
    let unknown = keep (λ k. not (is_known known k)) (items keys) in
    if is_empty unknown
    then ok tt
    else (do shown ← rt.sorted_repr unknown; raise (policy_error (message <> shown)))

-- `_reject_unknown`
unfoldable pub reject_unknown : Runtime → Value → List String → String → Result (Unit {0})
unfolding reject_keys hashable iterate
reject_unknown rt v known place = do
  keys ← iterate v
  (if hashable_items keys
      then reject_keys rt keys known ("unknown keys in " <> place <> ": ")
      else raise (type_error "unhashable type"))

-- `_as_names`, of a value that may be missing
unfoldable pub as_names : Runtime → Option Value → Result (List String)
unfolding iterate
as_names rt none = ok []
as_names rt (some Value.null) = ok []
as_names rt (some (Value.str s)) = ok (s ∷ [])
as_names rt (some v) = do vs ← iterate v; ok (map (str_of rt) (items vs))

-- A value that is not `None`
abbrev pub not_null : Option Value → Option Value
not_null (some Value.null) = none
not_null v = v
