-- ===== src/Integrity/Trust.antt =====
-- On `verify_core` and `write_manifest` of asphallea/integrity.py: which binaries are trusted.
use asphallea.Prelude.{
  String, none, some, true, ◌≡◌, ◌↔◌, ◌⊎◌, ==_refl, Option, [], arith, false, if◌then◌else◌, ◌==◌,
  ◌∷◌,
}
use asphallea.Integrity.{
  or_bundled, Files, Hasher, ManifestFile, compare_digest, expected_hash, load_manifest,
  sha256_file, verify_core, IntegrityResult, Manifest, write_manifest,
}
use asphallea.Policy.Hosts.{lower}
use asphallea.Runtime.{Runtime}
use asphallea.Errors.{ok, Exception, raise}
use asphallea.Value.{Value}
use asphallea.Prelude.Dict.{insert, lookup, lookup-insert}

module _ (rt : Runtime) where
  abbrev pub Trusts : Option String → String → IntegrityResult → Type 0
  Trusts expected digest r =
      ((r.is_ok ≡ true) ↔ ((expected ≡ none) ⊎ (expected ≡ some (lower rt digest))))
      × ((r.verified ≡ true) ↔ (expected ≡ some (lower rt digest)))

  compare_digest-Trusts :
      (digest : String) (expected : Option String)
      → Trusts expected digest (compare_digest rt digest expected)
  unfolding compare_digest
  compare_digest-Trusts digest expected = ground arith

module _ (rt : Runtime) (H : Hasher) (files : Files) (basename : String → String) where
  verify_core_readable :
      (bundled : ManifestFile) (manifest : Option Manifest) (path : String) {digest : String}
      → sha256_file H files path ≡ ok digest
      → verify_core rt H files basename bundled manifest path
        ≡ compare_digest rt digest (expected_hash rt basename (or_bundled manifest bundled) path)
  unfolding verify_core
  verify_core_readable bundled manifest path h = ground arith

  pub verify_core-is_ok :
      (bundled : ManifestFile) (path : String) {digest : String}
      → sha256_file H files path ≡ ok digest
      → Trusts rt
          (expected_hash rt basename (load_manifest bundled) path)
          digest
          (verify_core rt H files basename bundled none path)
  verify_core-is_ok bundled path {digest} h =
      rw (verify_core_readable bundled none path h)
        (compare_digest-Trusts rt digest (expected_hash rt basename (load_manifest bundled) path))

  -- A binary that cannot be read is not trusted.
  verify_core_unreadable :
      (bundled : ManifestFile) (path : String) {x : Exception}
      → sha256_file H files path ≡ raise x
      → (verify_core rt H files basename bundled none path).is_ok ≡ false
  unfolding verify_core
  verify_core_unreadable bundled path h = ground arith

expected_hash-write :
    (rt : Runtime) (basename : String → String) (m : Manifest) (path other : String)
    (digest : String)
    → expected_hash rt basename (insert (basename path) (("sha256", Value.str digest) ∷ []) m) other
      ≡ (if basename other == basename path
          then some (lower rt digest)
          else expected_hash rt basename m other)
unfolding expected_hash lookup
expected_hash-write rt basename m path other digest = ground (
  arith,
  lookup-insert (basename other) (basename path) (("sha256", Value.str digest) ∷ []) m,
  ==_refl "sha256",
)

written-manifest :
    (rt : Runtime) (H : Hasher) (files : Files) (basename : String → String)
    (before after : ManifestFile) (path : String) {digest : String}
    → write_manifest rt H files basename before path ≡ ok after
    → sha256_file H files path ≡ ok digest
    → load_manifest after
      ≡ insert (basename path) (("sha256", Value.str digest) ∷ []) (load_manifest before)
unfolding write_manifest load_manifest
written-manifest rt H files basename before after path wrote was = ground arith

-- After `write_manifest` of a binary, whatever manifest file was there and whatever the files are by
-- then: the binary is trusted just if its digest is, in lower case, the one of the file that was
-- recorded, and for a file of another name the manifest expects what it expected before.
pub write_manifest-verify_core :
    (rt : Runtime) (H : Hasher) (files later : Files) (basename : String → String)
    (before after : ManifestFile) (path : String) {old new : String}
    → write_manifest rt H files basename before path ≡ ok after
    → sha256_file H files path ≡ ok old
    → sha256_file H later path ≡ ok new
    → ((verify_core rt H later basename after none path).is_ok ≡ (lower rt new == lower rt old))
      × ((other : String)
          → expected_hash rt basename (load_manifest after) other ≡ (
              if basename other == basename path
              then some (lower rt old)
              else expected_hash rt basename (load_manifest before) other))
unfolding compare_digest
write_manifest-verify_core rt H files later basename before after path {old} {new} wrote was now =
    let made = written-manifest rt H files basename before after path wrote was in
    (
      ground (
        arith,
        made,
        verify_core_readable rt H later basename after none path now,
        expected_hash-write rt basename (load_manifest before) path path old,
      ),
      λ other.
          ground
            (arith, made, expected_hash-write rt basename (load_manifest before) path other old),
    )
