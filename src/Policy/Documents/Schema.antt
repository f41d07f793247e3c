-- ===== src/Policy/Documents/Schema.antt =====
-- The schema of the documents of asphallea/policy.py, as a relation between a document and what it says, and
-- the calls of a builder that say the same. It reads a document by its keys, in whatever order they stand.
use asphallea.Prelude.{
  Bool, List, Option, String, [], map, none, some, if◌then◌else◌, ◌∷◌, ◌++◌, ◌≡◌, true, false, ◌==◌,
}
use asphallea.Prelude.Dict.{Dict}
use asphallea.Prelude.Int.{ℤ, ◌*ℤ◌}
use asphallea.Policy.{ResourceLimits, ToolArgs}
use asphallea.Policy.Builder.{Method}
use asphallea.Policy.Documents.Values.{is_known, not_null}
use asphallea.Policy.Documents.Sections.{
  args_keys, filesystem_keys, limits_keys, network_keys, rate_keys, spend_keys, tools_keys,
}
use asphallea.Runtime.{find}
use asphallea.Value.{Fields, Items, Value, cons, end, field, nil}

pub record Tools : Type 0 where
  pub allow : List String
  pub deny : List String
  pub args : Dict ToolArgs

pub record Paths : Type 0 where
  pub read : List String
  pub write : List String

pub record Network : Type 0 where
  pub is_open : Bool
  pub allow_hosts : List String
  pub deny_hosts : List String

-- The rate of one tool.
pub record Rate : Type 0 where
  pub per_minute : Option ℤ
  pub per_second : Option ℤ

-- A duration counts units of 10⁻⁹ seconds. The limits for the core are passed on as they stand.
pub record Limits : Type 0 where
  pub timeout : Option ℤ
  pub calls : Dict ℤ
  pub rates : Dict Rate
  pub core : ResourceLimits

-- What a document says; a section may be missing.
pub record Schema : Type 0 where
  pub name : String
  pub tools : Option Tools
  pub filesystem : Option Paths
  pub network : Option Network
  pub limits : Option Limits
  pub spend : Option (Dict ℤ)

-- Every key is one of the known.
abbrev pub KeysIn : List String → Fields → Type 0
KeysIn known end = Unit
KeysIn known (field k v fs) = (is_known known k ≡ true) × KeysIn known fs

abbrev pub text_items : List String → Items
text_items [] = nil
text_items (s ∷ ss) = cons (Value.str s) (text_items ss)

-- A list of texts; a missing key or `null` is an empty one.
abbrev pub Listed : Option Value → List String → Type 0
Listed none ss = ss ≡ []
Listed (some Value.null) ss = ss ≡ []
Listed (some (Value.list vs)) ss = vs ≡ text_items ss
Listed _ ss = ⊥

-- Names of arguments: the same, or one text by itself.
abbrev pub Named : Option Value → List String → Type 0
Named none ss = ss ≡ []
Named (some Value.null) ss = ss ≡ []
Named (some (Value.str s)) ss = ss ≡ s ∷ []
Named (some (Value.list vs)) ss = vs ≡ text_items ss
Named _ ss = ⊥

-- A mapping of a document; `null` is an empty one.
abbrev pub Mapped : (Fields → Type 0) → Value → Type 0
Mapped D Value.null = D end
Mapped D (Value.dict fs) = D fs
Mapped D _ = ⊥

-- The entries of a table, in order, by the names of tools.
abbrev pub Rows : {V : Type 0} → (Value → V → Type 0) → Fields → Dict V → Type 0
Rows D end [] = Unit
Rows D (field (Value.str k) v fs) ((j, x) ∷ d) = (k ≡ j) × D v x × Rows D fs d
Rows D _ _ = ⊥

-- A table under a key that may be missing.
abbrev pub Tabled : {V : Type 0} → (Value → V → Type 0) → Option Value → Dict V → Type 0
Tabled D none d = Rows D end d
Tabled D (some Value.null) d = Rows D end d
Tabled D (some (Value.dict fs)) d = Rows D fs d
Tabled D _ d = ⊥

-- `reads`, `writes` and `network` of a tool
abbrev pub ArgsAre : Value → ToolArgs → Type 0
ArgsAre v a =
    Mapped
      (λ fs.
        KeysIn args_keys fs
        × Named (find "reads" fs) a.reads
        × Named (find "writes" fs) a.writes
        × Named (find "network" fs) a.network)
      v

abbrev pub given : Option ℤ → Option Value
given none = none
given (some n) = some (Value.int n)

-- `per_minute` and `per_second` of a tool
abbrev pub RateIs : Value → Rate → Type 0
RateIs v r =
    Mapped
      (λ fs.
        KeysIn rate_keys fs
        × (not_null (find "per_minute" fs) ≡ given r.per_minute)
        × (not_null (find "per_second" fs) ≡ given r.per_second))
      v

-- `max_calls` of a tool in `spend`
abbrev pub CapIs : Value → ℤ → Type 0
CapIs v n = Mapped (λ fs. KeysIn spend_keys fs × (find "max_calls" fs ≡ some (Value.int n))) v

abbrev pub CallsAre : Value → ℤ → Type 0
CallsAre v n = v ≡ Value.int n

abbrev pub ToolsAre : Fields → Tools → Type 0
ToolsAre fs t =
    KeysIn tools_keys fs
    × Listed (find "allow" fs) t.allow
    × Listed (find "deny" fs) t.deny
    × Tabled ArgsAre (find "args" fs) t.args

abbrev pub PathsAre : Fields → Paths → Type 0
PathsAre fs p =
    KeysIn filesystem_keys fs × Listed (find "read" fs) p.read × Listed (find "write" fs) p.write

-- The network is closed if the document does not open it.
abbrev pub DefaultIs : Option Value → Bool → Type 0
DefaultIs none permitted = permitted ≡ false
DefaultIs (some (Value.str s)) permitted = s ≡ (if permitted then "allow" else "deny")
DefaultIs _ permitted = ⊥

abbrev pub NetworkIs : Fields → Network → Type 0
NetworkIs fs n =
    KeysIn network_keys fs
    × DefaultIs (find "default" fs) n.is_open
    × Listed (find "allow_hosts" fs) n.allow_hosts
    × Listed (find "deny_hosts" fs) n.deny_hosts

-- Seconds, as a whole number or a float.
abbrev pub TimeoutIs : Option Value → Option ℤ → Type 0
TimeoutIs none none = Unit
TimeoutIs (some (Value.int n)) (some t) = t ≡ n *ℤ 1000000000
TimeoutIs (some (Value.float x)) (some t) = t ≡ x
TimeoutIs _ _ = ⊥

abbrev pub LimitsAre : Fields → Limits → Type 0
LimitsAre fs l =
    KeysIn limits_keys fs
    × TimeoutIs (find "timeout_seconds" fs) l.timeout
    × Tabled CallsAre (find "calls" fs) l.calls
    × Tabled RateIs (find "rate" fs) l.rates
    × (not_null (find "cpu_seconds" fs) ≡ l.core.cpu_seconds)
    × (not_null (find "memory_mb" fs) ≡ l.core.memory_mb)
    × (not_null (find "max_file_size_mb" fs) ≡ l.core.max_file_size_mb)
    × (not_null (find "max_processes" fs) ≡ l.core.max_processes)
    × (not_null (find "max_open_files" fs) ≡ l.core.max_open_files)

-- A section; one that is missing, `null` or empty says nothing.
abbrev pub SectionIs : {X : Type 0} → (Fields → X → Type 0) → Option Value → Option X → Type 0
SectionIs D none none = Unit
SectionIs D (some Value.null) none = Unit
SectionIs D (some (Value.dict end)) none = Unit
SectionIs D (some (Value.dict (field k v fs))) (some x) = D (field k v fs) x
SectionIs D _ _ = ⊥

-- The document says this.
pub record Describes (keys : List String) (document : Fields) (s : Schema) : Type 0 where
  pub known : KeysIn keys document
  pub name : find "name" document ≡ some (Value.str s.name)
  pub named : (s.name == "") ≡ false
  pub tools : SectionIs ToolsAre (find "tools" document) s.tools
  pub filesystem : SectionIs PathsAre (find "filesystem" document) s.filesystem
  pub network : SectionIs NetworkIs (find "network" document) s.network
  pub limits : SectionIs LimitsAre (find "limits" document) s.limits
  pub spend : SectionIs (Rows CapIs) (find "spend" document) s.spend

abbrev pub allow_call : String → Method
allow_call tool = Method.allow_tools (tool ∷ [])

abbrev pub refuse_call : String → Method
refuse_call tool = Method.deny_tools (tool ∷ [])

abbrev pub read_call : String → Method
read_call path = Method.read_paths (path ∷ [])

abbrev pub write_call : String → Method
write_call path = Method.write_paths (path ∷ [])

abbrev pub declare_call : String × ToolArgs → Method
declare_call (tool, a) = Method.declare tool a true

abbrev pub max_call : String × ℤ → Method
max_call (tool, n) = Method.max_calls tool n

abbrev pub cap_call : String × ℤ → Method
cap_call (tool, n) = Method.spend_cap tool n

abbrev pub rate_call : String × Rate → Method
rate_call (tool, r) = Method.rate_limit tool r.per_minute r.per_second

abbrev pub timeout_methods : Option ℤ → List Method
timeout_methods none = []
timeout_methods (some t) = Method.timeout t ∷ []

abbrev pub host_values : List String → List Value
host_values hosts = map Value.str hosts

abbrev pub tools_methods : Tools → List Method
tools_methods t = map allow_call t.allow ++ (map refuse_call t.deny ++ map declare_call t.args)

abbrev pub filesystem_methods : Paths → List Method
filesystem_methods p = map read_call p.read ++ map write_call p.write

abbrev pub network_methods : Network → List Method
network_methods n =
    (if n.is_open then Method.allow_network else Method.deny_network)
    ∷ Method.allow_hosts (host_values n.allow_hosts)
    ∷ Method.deny_hosts (host_values n.deny_hosts)
    ∷ []

abbrev pub limits_methods : Limits → List Method
limits_methods l =
    timeout_methods l.timeout
    ++ (map max_call l.calls ++ (map rate_call l.rates ++ Method.limits l.core ∷ []))

abbrev pub spend_methods : Dict ℤ → List Method
spend_methods caps = map cap_call caps

-- The calls for a section that may be missing.
abbrev pub said : {X : Type 0} → (X → List Method) → Option X → List Method
said methods none = []
said methods (some x) = methods x

-- The calls of a builder.
unfoldable pub methods_of : Schema → List Method
methods_of s =
    said tools_methods s.tools
    ++ (said filesystem_methods s.filesystem
        ++ (said network_methods s.network
            ++ (said limits_methods s.limits ++ said spend_methods s.spend)))
