-- ===== src/Tests/Data.antt =====
-- A runtime over POSIX paths, a policy and what is asked of it.

-- Whether `s` begins with `t`.
use Prim.Native.Char.{code}
use asphallea.Prelude.{
  Bool, String, [], false, none, some, true, if◌then◌else◌, ◌==◌, ◌<>◌, ◌&&◌, ◌||◌, ◌∷◌,
}
use asphallea.Engine.{Call, Engine, new_engine}
use asphallea.Policy.{Policy, RateLimit, ResourceLimits}
use asphallea.Errors.{Result, ok, raise, value_error}
use asphallea.Runtime.{Runtime}
use asphallea.Engine.Run.{Schedule}
use asphallea.Policy.Hosts.{is_code}
use asphallea.Prelude.Int.{pos}
use asphallea.Value.{Value}

abbrev begins : String → String → Bool
begins s String.[] = true
begins String.[] (String.◌∷◌ d t) = false
begins (String.◌∷◌ c s) (String.◌∷◌ d t) = is_code (code d) c && begins s t

-- The answer of `commonpath` for a path below the prefix, and for one that is not below it.
abbrev common : String → String → Result String
common path prefix = ok (if (path == prefix) || begins path (prefix <> "/") then prefix else "/")

abbrev pub runtime : Runtime
runtime = record {
  str_of = λ v. "value";
  repr = λ v. "value";
  sorted_repr = λ keys. ok "keys";
  format_g = λ x. "60";
  real_path = ok;
  normcase = λ path. path;
  commonpath = common;
  url_hostname = λ text. ok none;
  lower_wide = λ s. s;
  is_space_wide = λ c. false;
  parse_int = λ s. raise (value_error "invalid literal");
  parse_float = λ s. raise (value_error "could not convert");
}

abbrev pub limits : ResourceLimits
limits = record {
  cpu_seconds = some (Value.int (pos 2));
  memory_mb = some (Value.int (pos 64));
  max_file_size_mb = none;
  max_processes = none;
  max_open_files = none;
}

abbrev pub rate : RateLimit
rate = record { max_calls = pos 2; window_seconds = pos 60 }

abbrev pub policy : Policy
policy = record {
  name = "agent";
  allowed_tools = some ("save" ∷ "fetch" ∷ []);
  denied_tools = "shell" ∷ [];
  tool_args =
      ("save", record { reads = []; writes = "path" ∷ []; network = [] })
      ∷ ("fetch", record { reads = []; writes = []; network = "host" ∷ [] })
      ∷ [];
  read_paths = "/w" ∷ [];
  write_paths = "/w/out" ∷ [];
  network = "deny";
  network_allow_hosts = "example.com" ∷ [];
  network_deny_hosts = "evil.example.com" ∷ [];
  max_calls = ("save", pos 3) ∷ [];
  rate_limits = ("save", rate) ∷ [];
  spend_caps = ("save", pos 3) ∷ [];
  timeout_seconds = none;
  limits = limits;
}

abbrev pub engine : Engine
engine = new_engine policy

-- A write to a path.
abbrev pub saving : String → Call
saving path = record {
  tool = "save";
  reads = [];
  writes = path ∷ [];
  network_targets = [];
  network = false;
}

abbrev pub inside : Call
inside = saving "/w/out/a"

abbrev pub outside : Call
outside = saving "/w/outer/a"

-- Six calls of one tool, and when they are made.
abbrev pub calls : Schedule
calls =
    (inside, pos 1)
    ∷ (outside, pos 2)
    ∷ (inside, pos 3)
    ∷ (inside, pos 5)
    ∷ (inside, pos 90)
    ∷ (inside, pos 91)
    ∷ []
