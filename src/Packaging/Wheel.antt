-- ===== src/Packaging/Wheel.antt =====
-- scripts/verify_wheel.py: the checks of a built wheel. The archive as `zipfile` reads it, `json.loads` and
-- what `pip` and the interpreter of the throwaway environment answer are parameters.
use asphallea.Prelude.{
  Bool, List, Option, String, [], any, contains, false, is_empty, keep, map, none, not, some, true,
  ℕ, zero, if◌then◌else◌, ◌==◌, ◌<>◌, ◌&&◌, ◌∷◌, suc,
}
use asphallea.Errors.{Result, ok, raise, error, type_error, verification_error, ◌>>=◌, ◌>>◌}
use asphallea.Policy.Hosts.{ends_with, rsplit_last, strip}
use asphallea.Packaging.Texts.{starts_with, contains_text, after_first, join}
use asphallea.Runtime.{Runtime, find, is_key, str_of}
use asphallea.Value.{Value, items}
use asphallea.Sandbox.Capabilities.{Capabilities, can_contain, explain}
use asphallea.Integrity.{IntegrityResult}
use asphallea.Prelude.Int.{pos, ℤ}

-- A wheel, opened: its names, the lines of an entry, an entry as JSON, and the size of an entry.
pub record Archive : Type 0 where
  pub name : String
  pub names : List String
  pub lines : String → Result (List String)
  pub loads : String → Result Value
  pub file_size : String → ℕ

abbrev pub core_names : List String
core_names = "asphallea/_core/asphallea-run" ∷ "asphallea/_core/asphallea-run.exe" ∷ []

abbrev pub manifest_name : String
manifest_name = "asphallea/_core/checksums.json"

-- `next(n for n in names if …)`
unfoldable pub wheel_meta : List String → Result String
wheel_meta [] = raise (error "StopIteration")
wheel_meta (n ∷ names) =
    let rest = wheel_meta names in if ends_with n ".dist-info/WHEEL" then ok n else rest

abbrev tag_of : Runtime → String → String
tag_of rt line = strip rt (after_first b':' line)

-- The tags of the lines of the `WHEEL` entry.
unfoldable pub tags_of : Runtime → List String → List String
unfolding strip
tags_of rt lines = map (tag_of rt) (keep (λ line. starts_with line "Tag:") lines)

-- `name in manifest`
unfoldable pub mentions : Value → String → Result Bool
unfolding find
mentions (Value.dict fs) name = ok (elim (find name fs) [ none ↦ false | some v ↦ true ])
mentions (Value.list vs) name = ok (any (is_key name) (items vs))
mentions (Value.str s) name = ok (contains_text s name)
mentions v name = raise (type_error "argument is not iterable")

abbrev pub require : Bool → String → Result (Unit {0})
require true message = ok tt
require false message = raise (verification_error message)

-- The core binaries inside, of which there has to be one.
unfoldable pub core_of : Archive → Result String
core_of a = elim (keep (contains core_names) a.names) [
  | [] ↦ raise (
      verification_error (
        a.name
        <> ": no core binary inside. The wheel would install a policy tier with no OS containment. Run scripts/bundle_core.py before building, and build with `python -m build --wheel` (a wheel built from the sdist has no binary to bundle)."))
  | core ∷ others ↦ ok core
]

-- The checks of the binary and of its manifest.
unfoldable pub check_core : Archive → Result (Unit {0})
unfolding mentions core_of rsplit_last
check_core a = do
  core ← core_of a
  require (contains a.names manifest_name)
      (a.name <> ": core binary present but " <> manifest_name <> " is missing")
  manifest ← a.loads manifest_name
  named ← mentions manifest (rsplit_last b'/' core)
  require named (
      a.name
      <> ": manifest has no entry for "
      <> rsplit_last b'/' core
      <> "; the runtime integrity check would not verify it")
  elim (a.file_size core) [
    | zero ↦ raise (verification_error (a.name <> ": core binary is empty"))
    | suc n ↦ ok tt
  ]

-- `tag.rsplit("-", 1)[-1]`
abbrev pub platform_of : String → String
platform_of tag = rsplit_last b'-' tag

unfoldable pub check_tag : String → String → Result (Unit {0})
unfolding rsplit_last starts_with
check_tag name tag = do
  require (not (platform_of tag == "any")) (
      name
      <> ": tagged 'any' but ships a native binary; it would install on every platform and work on one")
  require (not (starts_with (platform_of tag) "linux_")) (
      name
      <> ": platform tag '"
      <> platform_of tag
      <> "' is not uploadable to PyPI. Linux wheels must be manylinux_* or musllinux_*.")

-- The loop over the tags.
unfoldable pub check_tags : String → List String → Result (Unit {0})
unfolding check_tag
check_tags name [] = ok tt
check_tags name (tag ∷ tags) = do check_tag name tag; check_tags name tags

-- `static_check`
unfoldable pub static_check : Runtime → Archive → Result String
unfolding wheel_meta tags_of check_core check_tags join
static_check rt a = do
  meta ← wheel_meta a.names
  lines ← a.lines meta
  check_core a
  check_tags a.name (tags_of rt lines)
  require (not (is_empty (tags_of rt lines))) (a.name <> ": no Tag: line in WHEEL metadata")
  ok (join ", " (tags_of rt lines))

-- What `PROBE` prints, as far as it is read.
pub record Report : Type 0 where
  pub core_binary : Option String
  pub bundled : Bool
  pub can_contain : Bool
  pub explain : String
  pub integrity_verified : Option Bool
  pub integrity_reason : Option String

abbrev pub is_bundled : Option String → Bool
is_bundled none = false
is_bundled (some binary) =
    not (binary == "") && contains_text binary "_core" && contains_text binary "site-packages"

-- The result of `verify_core`, `if binary`
abbrev checked : (String → IntegrityResult) → Option String → Option IntegrityResult
checked verify none = none
checked verify (some binary) = if binary == "" then none else some (verify binary)

-- `PROBE`
unfoldable pub probe_report : Capabilities → (String → IntegrityResult) → Report
unfolding contains_text can_contain explain
probe_report caps verify =
    let result = checked verify caps.core_binary in
    record {
      core_binary = caps.core_binary;
      bundled = is_bundled caps.core_binary;
      can_contain = can_contain caps;
      explain = explain caps;
      integrity_verified = elim result [ none ↦ none | some r ↦ some r.verified ];
      integrity_reason = elim result [ none ↦ none | some r ↦ some r.reason ];
    }

-- The throwaway environment: what `pip install` ends with, and what the probe prints, as JSON, or the
-- exception of a probe that fails.
pub record Venv : Type 0 where
  pub returncode : ℤ
  pub stderr : String
  pub probe : Result Report

abbrev is_zero : ℤ → Bool
is_zero (pos zero) = true
is_zero n = false

abbrev is_true : Option Bool → Bool
is_true none = false
is_true (some b) = b

abbrev or_none : Option String → Value
or_none none = Value.null
or_none (some s) = Value.str s

-- The checks of the report.
unfoldable pub check_report : Runtime → String → Report → Result (Unit {0})
check_report rt name report = do
  require report.bundled (
      name
      <> ": the installed package did not resolve its own bundled core binary (got "
      <> rt.repr (or_none report.core_binary)
      <> ")")
  require (is_true report.integrity_verified) (
      name
      <> ": bundled binary failed hash verification: "
      <> str_of rt (or_none report.integrity_reason))
  require report.can_contain (name <> ": installed but reports no containment: " <> report.explain)

-- `live_check`
unfoldable pub live_check : Runtime → String → Venv → Result (Option Report)
unfolding contains_text check_report
live_check rt name venv =
    if is_zero venv.returncode
    then (do report ← venv.probe; check_report rt name report; ok (some report))
    else if contains_text venv.stderr "not a supported wheel on this platform"
    then ok none
    else raise (verification_error (name <> ": install failed:\n" <> venv.stderr))
