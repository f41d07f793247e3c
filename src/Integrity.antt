-- ===== src/Integrity.antt =====
-- asphallea/integrity.py: the check of the core binary against the manifest of hashes.
pub mod Digest
pub mod Trust
use asphallea.Prelude.{
  Bool, List, Option, String, [], drop, false, is_empty, length, none, some, suc, take, true, zero,
  ℕ, if◌then◌else◌, ◌==◌, ◌+◌, ◌<>◌, ◌∷◌,
}
use asphallea.Policy.Hosts.{lower}
use asphallea.Prelude.Dict.{Dict, insert, lookup}
use asphallea.Errors.{Exception, Result, integrity_error, ok, os_error, raise, type_error, ◌>>=◌}
use asphallea.Runtime.{Runtime, str_of}
use asphallea.Value.{Value}

-- A manifest: for each file name, an object of JSON.
abbrev pub Manifest : Type 0
Manifest = Dict (Dict Value)

-- The manifest file as `json.load` reads it: it may be missing, no JSON, another document than an object,
-- or an object. A file that is there can be read.
pub data ManifestFile : Type 0 where
  missing broken other_document : ManifestFile
  document : Manifest → ManifestFile

-- `hashlib.sha256`: an object that is fed bytes and gives a text.
pub record Hasher : Type 1 where
  pub State : Type 0
  pub init : State
  pub update : State → List ℕ → State
  pub hexdigest : State → String

-- What `open(path, "rb")` gives: the bytes of the file, or an `OSError`.
abbrev pub Files : Type 0
Files = String → Result (List ℕ)

abbrev pub chunk : ℕ
chunk = 1048576

-- `for chunk in iter(lambda: fh.read(_CHUNK), b"")` over the bytes that are left. The fuel is the number
-- of reads; `sha256_file` gives one more than there are bytes.
unfoldable pub feed : (H : Hasher) → ℕ → List ℕ → H.State → H.State
feed H zero bytes h = h
feed H (suc fuel) bytes h =
    let rest = feed H fuel (drop chunk bytes) (H.update h (take chunk bytes)) in
    if is_empty bytes then h else rest

-- `sha256_file`
unfoldable pub sha256_file : Hasher → Files → String → Result String
unfolding feed
sha256_file H files path = do
  bytes ← files path
  ok (H.hexdigest (feed H (length bytes + 1) bytes H.init))

-- `_load_manifest`
unfoldable pub load_manifest : ManifestFile → Manifest
load_manifest (document m) = m
load_manifest _ = []

-- `class IntegrityResult`
pub record IntegrityResult : Type 0 where
  pub is_ok : Bool
  pub method : String
  pub verified : Bool
  pub sha256 : String
  pub reason : String

abbrev no_entry_reason : String
no_entry_reason =
    "no bundled manifest entry for this binary; nothing to verify against (built-from-source or ASPHALLEA_CORE_BIN override)"

abbrev message_of : Exception → String
message_of (os_error m) = m
message_of _ = ""

module _ (rt : Runtime) where
  -- The hash that the manifest expects of a file, unless it has no entry, an empty one, or one with no
  -- hash.
  unfoldable pub expected_hash : (String → String) → Manifest → String → Option String
  expected_hash basename manifest path = elim (lookup (basename path) manifest) [
    | none ↦ none
    | some entry ↦ elim (lookup "sha256" entry) [
      | none ↦ none
      | some v ↦ some (lower rt (str_of rt v))
    ]
  ]

  -- What `verify_core` returns once it has the digest.
  unfoldable pub compare_digest : String → Option String → IntegrityResult
  compare_digest digest none = record {
    is_ok = true;
    method = "none";
    verified = false;
    sha256 = digest;
    reason = no_entry_reason;
  }
  compare_digest digest (some expected) =
      if lower rt digest == expected
      then record {
        is_ok = true;
        method = "sha256";
        verified = true;
        sha256 = digest;
        reason = "core binary hash matches the manifest";
      }
      else record {
        is_ok = false;
        method = "sha256";
        verified = false;
        sha256 = digest;
        reason =
            "core binary hash " <> digest <> " does not match the manifest hash " <> expected
            <> "; the binary may have been tampered with or replaced";
      }

-- The manifest that `write_manifest` extends.
abbrev pub existing : ManifestFile → Result Manifest
existing missing = ok []
existing broken = ok []
existing other_document = raise (type_error "list indices must be integers or slices, not str")
existing (document m) = ok m

-- `if manifest is None: manifest = _load_manifest()`
abbrev pub or_bundled : Option Manifest → ManifestFile → Manifest
or_bundled none bundled = load_manifest bundled
or_bundled (some m) bundled = m

module _ (rt : Runtime) (H : Hasher) (files : Files) (basename : String → String) where
  -- `verify_core(path, manifest=manifest)`, with the bundled manifest file
  unfoldable pub verify_core : ManifestFile → Option Manifest → String → IntegrityResult
  verify_core bundled manifest path = elim (sha256_file H files path) [
    | raise x ↦ record {
      is_ok = false;
      method = "error";
      verified = false;
      sha256 = "";
      reason = "cannot read core binary: " <> message_of x;
    }
    | ok digest ↦
        compare_digest rt digest (expected_hash rt basename (or_bundled manifest bundled) path)
  ]

  -- `require_trusted_core`
  unfoldable pub require_trusted_core : ManifestFile → String → Result IntegrityResult
  require_trusted_core bundled path =
      let r = verify_core bundled none path in
      if r.is_ok then ok r else raise (integrity_error r.reason)

  -- `write_manifest`: the manifest file that it leaves.
  unfoldable pub write_manifest : ManifestFile → String → Result ManifestFile
  write_manifest file path = do
    digest ← sha256_file H files path
    manifest ← existing file
    ok (document (insert (basename path) (("sha256", Value.str digest) ∷ []) manifest))
