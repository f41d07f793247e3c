-- ===== src/Policy/Documents.antt =====
-- `Policy.from_dict`, `from_yaml`, `_reject_unknown` and `_as_names` of asphallea/policy.py. A document is
-- the entries of a dict of Python. The YAML parser and the file are parameters.
pub mod Values
pub mod Sections
pub mod Sound
pub mod Known
pub mod Strict
pub mod Schema
pub mod Chain
pub mod Meaning
use asphallea.Prelude.{List, String, [], none, some, if◌then◌else◌, ◌∷◌, Option}
use asphallea.Runtime.{find, Runtime, dict_keys, str_of, truthy}
use asphallea.Errors.{Result, ok, raise, policy_error, ◌>>=◌, ◌>>◌}
use asphallea.Policy.Builder.{Builder, new_builder, build}
use asphallea.Policy.Documents.Values.{reject_keys, or_empty}
use asphallea.Policy.Documents.Sections.{
  load_tools, load_filesystem, load_network, load_limits, load_spend,
}
use asphallea.Value.{Fields, Value}
use asphallea.Policy.{Policy}

abbrev pub policy_keys : List String
policy_keys = "name" ∷ "tools" ∷ "filesystem" ∷ "network" ∷ "limits" ∷ "spend" ∷ []

-- What is done `if section`, for a section that may be missing.
unfoldable pub fill : (Value → Builder → Result Builder) → Option Value → Builder → Result Builder
fill load none b = ok b
fill load (some v) b = if truthy v then load v b else ok b

-- `section = data.get(key) or {}`
unfoldable pub section :
    (Value → Builder → Result Builder) → Fields → String → Builder → Result Builder
unfolding fill
section load document key b = fill load (find key document) b

-- `name = data.get("name")`, and the exception `if not name`
unfoldable pub required_name : Runtime → Fields → Result String
required_name rt document = elim (find "name" document) [
  | none ↦ raise (policy_error "policy is missing required key 'name'")
  | some v ↦
      if truthy v
      then ok (str_of rt v)
      else raise (policy_error "policy is missing required key 'name'")
]

-- The builder after all sections.
unfoldable pub load_sections : Runtime → Fields → Builder → Result Builder
unfolding section
load_sections rt document b = do
  with_tools ← section (load_tools rt) document "tools" b
  with_paths ← section (load_filesystem rt) document "filesystem" with_tools
  with_network ← section (load_network rt) document "network" with_paths
  with_limits ← section (load_limits rt) document "limits" with_network
  section (load_spend rt) document "spend" with_limits

-- `Policy.from_dict`
unfoldable pub from_dict : Runtime → Fields → Result Policy
unfolding required_name load_sections
from_dict rt document = do
  reject_keys rt (dict_keys document) policy_keys "unknown policy keys: "
  name ← required_name rt document
  b ← load_sections rt document (new_builder name)
  build rt b

-- `Policy.from_yaml`, with `Path.read_text` and `yaml.safe_load`
unfoldable pub from_yaml :
    Runtime → (String → Result String) → (String → Result Value) → String → Result Policy
from_yaml rt read_text safe_load path = do
  text ← read_text path
  v ← safe_load text
  elim (or_empty v) [
    | Value.dict document ↦ from_dict rt document
    | _ ↦ raise (policy_error "policy YAML must be a mapping at the top level")
  ]
