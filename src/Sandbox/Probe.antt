-- ===== src/Sandbox/Probe.antt =====
-- `core_binary`, `capabilities` and `_probe` of asphallea/sandbox.py, over what the host answers.
use asphallea.Prelude.{
  Bool, List, Option, String, [], false, none, some, true, if◌then◌else◌, ◌==◌, ◌<>◌, ◌||◌, ◌∷◌,
  ◌++◌,
}
use asphallea.Errors.{◌>>=◌, Result, attribute_error, ok, raise}
use asphallea.Sandbox.World.{Action, Effect, World, launched}
use asphallea.Audit.{AuditSink}
use asphallea.Sandbox.Capabilities.{Capabilities, no_capabilities}
use asphallea.Runtime.{Runtime, find, str_of, to_int, truthy}
use asphallea.Value.{Fields, Value}
use asphallea.Prelude.Int.{leb_ℤ, pos, ℤ}

-- How `subprocess.run([binary, "--probe"], …)` and `json.loads` of its output end: the binary cannot be
-- started, or it is started, and then there is a JSON value, or the time limit or bad JSON is caught.
pub data Probe : Type 0 where
  not_started : Probe
  started : Option Value → Probe

-- The host: its name, the environment, its files and its core binary.
pub record Host : Type 0 where
  -- `platform.system()`, and whether `os.name` is `nt`
  pub system : String
  pub nt : Bool
  -- `ASPHALLEA_CORE_BIN`, and `shutil.which("asphallea-run")`
  pub env_core_bin : Option String
  pub which : Option String
  pub is_file : String → Bool
  -- the folder of the package, and the one above it
  pub here : String
  pub parent : String
  -- `binary --probe`
  pub probe : String → Probe

-- `text` as a condition
abbrev non_empty : Option String → Option String
non_empty none = none
non_empty (some s) = if s == "" then none else some s

-- The first entry that is a file.
unfoldable pub first_file : (String → Bool) → List String → Option String
first_file is_file [] = none
first_file is_file (path ∷ rest) =
    let later = first_file is_file rest in if is_file path then some path else later

-- The build locations that `core_binary` tries.
abbrev pub build_locations : Host → List String
build_locations h =
    let exe = "asphallea-run" <> (if h.nt then ".exe" else "") in
    (h.here <> "/_core/" <> exe)
    ∷ (h.parent <> "/core/target/release/" <> exe)
    ∷ (h.parent <> "/core/target/debug/" <> exe)
    ∷ []

abbrev from_build : Host → Option String
from_build h = first_file h.is_file (build_locations h)

abbrev from_path : Host → Option String
from_path h = elim (non_empty h.which) [ none ↦ from_build h | some path ↦ some path ]

-- `core_binary`
unfoldable pub core_binary : Host → Option String
unfolding first_file
core_binary h = elim (non_empty h.env_core_bin) [
  | none ↦ from_path h
  | some path ↦ if h.is_file path then some path else from_path h
]

-- `data.get(key, default)`
abbrev data_get : String → Fields → Value → Value
data_get key d default = elim (find key d) [ none ↦ default | some v ↦ v ]

abbrev flag : Fields → String → Bool
flag d key = truthy (data_get key d (Value.bool false))

abbrev linux_capabilities : String → String → Fields → ℤ → Capabilities
linux_capabilities binary system d abi = record {
  platform = system;
  core_binary = some binary;
  backend = "linux-landlock-seccomp";
  filesystem_sandbox = leb_ℤ (pos 1) abi;
  network_sandbox = flag d "seccomp";
  resource_limits = true;
  process_kill = true;
  landlock_abi = abi;
  seccomp = flag d "seccomp";
  user_namespaces = flag d "user_namespaces";
  net_namespaces = flag d "net_namespaces";
  version = find "version" d;
}

abbrev reported_capabilities : Runtime → String → String → Fields → Capabilities
reported_capabilities rt binary system d = record (no_capabilities system (some binary)) {
  backend = str_of rt (data_get "backend" d (Value.str "unknown"));
  filesystem_sandbox = flag d "filesystem_sandbox";
  network_sandbox = flag d "network_sandbox";
  resource_limits = flag d "resource_limits";
  process_kill = flag d "process_kill";
  version = find "version" d;
}

-- What `_probe` makes of the JSON value. Only a dict has `get`, and `int` of the reported Landlock version
-- may raise; neither is caught.
unfoldable pub capabilities_from : Runtime → String → String → Value → Result Capabilities
unfolding truthy find
capabilities_from rt binary system (Value.dict d) =
    if system == "Linux"
    then (do
      abi ← to_int rt (data_get "landlock_abi" d (Value.int (pos 0)))
      ok (linux_capabilities binary system d abi))
    else ok (reported_capabilities rt binary system d)
capabilities_from rt binary system v = raise (attribute_error "object has no attribute 'get'")

-- What `_probe` returns or raises.
unfoldable pub probe_host : Runtime → Host → String → String → Result Capabilities
unfolding capabilities_from
probe_host rt h binary system = elim (h.probe binary) [
  | not_started ↦ ok (no_capabilities system (some binary))
  | started none ↦ ok (no_capabilities system (some binary))
  | started (some v) ↦ capabilities_from rt binary system v
]

-- The command line of `_probe`
abbrev pub probe_argv : String → List String
probe_argv binary = binary ∷ "--probe" ∷ []

-- What `_probe` starts.
unfoldable pub probe_starts : Probe → String → List Effect
probe_starts not_started binary = []
probe_starts (started output) binary = launched (probe_argv binary) ∷ []

abbrev pub is_supported : String → Bool
is_supported system = (system == "Linux") || (system == "Windows") || (system == "Darwin")

-- `capabilities()` when nothing is cached
unfoldable pub detect : Runtime → Host → Result Capabilities
unfolding core_binary probe_host
detect rt h = elim (core_binary h) [
  | none ↦ ok (no_capabilities h.system none)
  | some binary ↦
      if is_supported h.system
      then probe_host rt h binary h.system
      else ok (no_capabilities h.system (some binary))
]

-- What `capabilities()` starts when nothing is cached: the probe, where there is a binary on a platform
-- that is probed.
unfoldable pub starts_with : Host → Option String → List Effect
unfolding probe_starts
starts_with h none = []
starts_with h (some binary) =
    if is_supported h.system then probe_starts (h.probe binary) binary else []

unfoldable pub detect_starts : Host → List Effect
unfolding core_binary starts_with
detect_starts h = starts_with h (core_binary h)

-- The cached capabilities, unless a refresh is asked for.
abbrev cached : Bool → Option Capabilities → Option Capabilities
cached true caps = none
cached false caps = caps

abbrev pub probed : {S : AuditSink} → Host → World S → World S
probed h w = record w { trace = w.trace ++ detect_starts h }

-- `capabilities(refresh=refresh)`
unfoldable pub capabilities : {S : AuditSink} → Runtime → Host → Bool → Action S Capabilities
capabilities rt h refresh w = elim (cached refresh w.caps_cache) [
  | some caps ↦ (ok caps, w)
  | none ↦ elim (detect rt h) [
    | raise x ↦ (raise x, probed h w)
    | ok caps ↦ (ok caps, record (probed h w) { caps_cache = some caps })
  ]
]
