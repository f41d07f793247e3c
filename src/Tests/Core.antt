-- ===== src/Tests/Core.antt =====
-- The core binary: its limits, its hash and its capabilities.
use mathlib.Core.List.{append_assoc, append-nil}
use asphallea.Prelude.{
  refl, List, String, [], none, some, true, ℕ, if◌then◌else◌, ◌==◌, ◌≡◌, ◌∷◌, ◌++◌, arith,
}
use asphallea.Integrity.Digest.{feed_enough, IsIncremental, sha256_file_lem}
use asphallea.Policy.Hosts.{lower}
use asphallea.Sandbox.Capabilities.{Capabilities, no_capabilities}
use asphallea.Integrity.{
  feed, missing, document, Files, Hasher, Manifest, ManifestFile, expected_hash, load_manifest,
  sha256_file, verify_core, write_manifest,
}
use asphallea.Tests.Data.{runtime, limits}
use asphallea.Policy.CoreJson.{lookup-limits_json, limits_json}
use asphallea.Integrity.Trust.{write_manifest-verify_core}
use asphallea.Value.{Value}
use asphallea.Prelude.Dict.{insert, lookup, Dict}
use asphallea.Errors.{ok}
use asphallea.Prelude.Int.{pos, ◌*ℤ◌, ℤ}
use asphallea.Runtime.{to_int}

abbrev core_limits : Dict ℤ
core_limits = ("cpu_seconds", pos 2) ∷ ("memory_bytes", pos 67108864) ∷ []

lookup-limits_json_example :
    (lookup "cpu_seconds" core_limits ≡ some (pos 2))
    × (lookup "memory_bytes" core_limits ≡ some (pos 67108864))
    × (lookup "max_file_size_bytes" core_limits ≡ none)
    × (lookup "max_processes" core_limits ≡ none)
    × (lookup "max_open_files" core_limits ≡ none)
unfolding limits_json to_int ◌*ℤ◌
lookup-limits_json_example = lookup-limits_json runtime limits {d = core_limits} refl

-- An object that keeps its bytes, and prints how many they are up to two.
abbrev digits : List ℕ → String
digits [] = "0A"
digits (b ∷ []) = "1A"
digits (b ∷ c ∷ bytes) = "2A"

abbrev hasher : Hasher
hasher = record { State = List ℕ; init = []; update = λ h bytes. h ++ bytes; hexdigest = digits }

hasher-IsIncremental : IsIncremental hasher
hasher-IsIncremental = record {
  update-append = λ h a b. append_assoc h a b;
  update-nil = λ h. append-nil h;
}

-- Files of one byte, and files of two.
abbrev files : Files
files path = ok (7 ∷ [])

abbrev replaced : Files
replaced path = ok (7 ∷ 8 ∷ [])

abbrev basename : String → String
basename path = path

sha256_file_lem_example : sha256_file hasher files "run" ≡ ok "1A"
sha256_file_lem_example =
    sha256_file_lem hasher hasher-IsIncremental files "run" {bytes = 7 ∷ []} refl

abbrev manifest : Manifest
manifest = ("run", ("sha256", Value.str "1a") ∷ []) ∷ []

abbrev written : ManifestFile
written = document (("run", ("sha256", Value.str "1A") ∷ []) ∷ [])

write_manifest-verify_core_example :
    ((verify_core runtime hasher replaced basename written none "run").is_ok
      ≡ (lower runtime "2A" == lower runtime "1A"))
    × ((other : String)
        → expected_hash runtime basename (load_manifest written) other ≡ (
            if other == "run"
            then some (lower runtime "1A")
            else expected_hash runtime basename (load_manifest missing) other))
unfolding write_manifest sha256_file feed insert
write_manifest-verify_core_example =
    write_manifest-verify_core runtime hasher files replaced basename missing written "run"
      {old = "1A"} {new = "2A"} refl refl refl

abbrev landlocked : Capabilities
landlocked = record (no_capabilities "Linux" (some "/run")) {
  filesystem_sandbox = true;
  resource_limits = true;
}

feed_enough_example : feed hasher 9 (7 ∷ 8 ∷ []) [] ≡ feed hasher 3 (7 ∷ 8 ∷ []) []
feed_enough_example = feed_enough hasher 3 9 (7 ∷ 8 ∷ []) [] (omega arith) (omega arith)
