-- ===== src/Sandbox/Capabilities.antt =====
-- `Capabilities` of asphallea/sandbox.py.
pub mod Coverage
use asphallea.Prelude.{
  Bool, List, Option, String, [], false, is_empty, none, not, some, true, if◌then◌else◌, ◌<>◌, ◌&&◌,
  ◌||◌, ◌∷◌, ◌++◌,
}
use asphallea.Value.{Fields, Value, end, field}
use asphallea.Prelude.Int.{pos, ℤ}

-- `class Capabilities`
pub record Capabilities : Type 0 where
  pub platform : String
  pub core_binary : Option String
  pub backend : String
  pub filesystem_sandbox : Bool
  pub network_sandbox : Bool
  pub resource_limits : Bool
  pub process_kill : Bool
  pub landlock_abi : ℤ
  pub seccomp : Bool
  pub user_namespaces : Bool
  pub net_namespaces : Bool
  pub version : Option Value

-- `Capabilities(platform=…, core_binary=…)`
abbrev pub no_capabilities : String → Option String → Capabilities
no_capabilities platform binary = record {
  platform = platform;
  core_binary = binary;
  backend = "none";
  filesystem_sandbox = false;
  network_sandbox = false;
  resource_limits = false;
  process_kill = false;
  landlock_abi = pos 0;
  seccomp = false;
  user_namespaces = false;
  net_namespaces = false;
  version = none;
}

abbrev pub is_some {ℓ} : {A : Type ℓ} → Option A → Bool
is_some none = false
is_some (some x) = true

-- `Capabilities.can_contain`
unfoldable pub can_contain : Capabilities → Bool
can_contain c =
    is_some c.core_binary && (c.filesystem_sandbox || c.resource_limits || c.process_kill)

-- `Capabilities.covers`
unfoldable pub covers : Capabilities → Bool → Bool → Bool
unfolding can_contain
covers c filesystem network =
    if not (can_contain c)
    then false
    else if filesystem && not c.filesystem_sandbox
    then false
    else if network && not c.network_sandbox
    then false
    else true

-- `", ".join(parts)`
unfoldable pub join : List String → String
join [] = ""
join (part ∷ []) = part
join (part ∷ next ∷ rest) = part <> ", " <> join (next ∷ rest)

abbrev pub if_then : Bool → String → List String
if_then b part = if b then part ∷ [] else []

-- The parts that `Capabilities.dimensions` lists.
unfoldable pub dimension_parts : Capabilities → List String
dimension_parts c =
    if_then c.filesystem_sandbox "filesystem allowlist"
    ++ (if_then c.network_sandbox "network deny"
        ++ (if_then c.resource_limits "resource limits"
            ++ if_then c.process_kill "process termination"))

-- `Capabilities.dimensions`
unfoldable pub dimensions : Capabilities → String
unfolding dimension_parts join
dimensions c = let parts = dimension_parts c in if is_empty parts then "nothing" else join parts

-- The dimensions that `Capabilities.shortfall` lists.
unfoldable pub missing_parts : Capabilities → Bool → Bool → List String
missing_parts c filesystem network =
    if_then (filesystem && not c.filesystem_sandbox) "filesystem allowlisting"
    ++ if_then (network && not c.network_sandbox) "network isolation"

-- `Capabilities.shortfall`
unfoldable pub shortfall : Capabilities → Bool → Bool → String
unfolding missing_parts join
shortfall c filesystem network = join (missing_parts c filesystem network)

abbrev no_binary_advice : String → String
no_binary_advice platform =
    "the asphallea-run core binary was not found for " <> platform
    <> ". Install a release wheel, which bundles a prebuilt core, or download the standalone binary for your platform from https://github.com/Asphallea/Asphallea/releases and point ASPHALLEA_CORE_BIN at it, or build it yourself in core/ (cargo build --release) and put it on PATH."

-- `Capabilities.explain`
unfoldable pub explain : Capabilities → String
unfolding can_contain dimensions
explain c =
    if not (can_contain c)
    then (if is_some c.core_binary
        then "no OS containment engine is available on " <> c.platform <> "."
        else no_binary_advice c.platform)
    else c.backend <> " on " <> c.platform <> " contains: " <> dimensions c <> "."

optional_text : Option String → Value
optional_text none = Value.null
optional_text (some s) = Value.str s

-- `_caps_dict`
unfoldable pub caps_dict : Capabilities → Fields
unfolding optional_text
caps_dict c = field (Value.str "platform") (Value.str c.platform) (
    field (Value.str "backend") (Value.str c.backend) (
      field (Value.str "core_binary") (optional_text c.core_binary) (
        field (Value.str "filesystem_sandbox") (Value.bool c.filesystem_sandbox) (
          field (Value.str "network_sandbox") (Value.bool c.network_sandbox) (
            field (Value.str "resource_limits") (Value.bool c.resource_limits) (
              field (Value.str "process_kill") (Value.bool c.process_kill) (
                field (Value.str "landlock_abi") (Value.int c.landlock_abi)
                  (field (Value.str "seccomp") (Value.bool c.seccomp) end))))))))
