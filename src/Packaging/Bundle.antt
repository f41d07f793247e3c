-- ===== src/Packaging/Bundle.antt =====
-- scripts/bundle_core.py: the binary is copied into the package and recorded. `hashlib`, the files and
-- `Path.name` are parameters.
use mathlib.Core.Path.{subst}
use asphallea.Prelude.{
  Bool, List, Option, String, none, some, true, false, ℕ, if◌then◌else◌, ◌==◌, ◌<>◌, ◌≡◌,
  Bool-cases, inl, inr, refl, ◌∙◌, ==_refl, arith,
}
use asphallea.Integrity.{Files, Hasher, ManifestFile, write_manifest, sha256_file, verify_core}
use asphallea.Errors.{Result, ok, raise, error, os_error, ◌>>=◌, >>=-ok, Result-cases, ok-injective}
use asphallea.Runtime.{Runtime}
use asphallea.Integrity.Trust.{verify_core-is_ok, write_manifest-verify_core}

-- What the script reads and changes: the files, and the manifest beside the bundled binary.
pub record Tree : Type 0 where
  pub files : Files
  pub manifest : ManifestFile

-- `exe`
abbrev pub exe_name : Bool → String
exe_name true = "asphallea-run.exe"
exe_name false = "asphallea-run"

-- The command line, and the system.
pub record Arguments : Type 0 where
  pub root : String
  pub is_nt : Bool
  pub binary : Option String
  pub profile : String

abbrev default_source : Arguments → String
default_source args = args.root <> "/core/target/" <> args.profile <> "/" <> exe_name args.is_nt

-- `src`: an empty `--binary` is none.
unfoldable pub source_of : Arguments → String
source_of args = elim args.binary [
  | none ↦ default_source args
  | some path ↦ if path == "" then default_source args else path
]

-- `shutil.copy2`, of a file with the bytes
abbrev copied : String → List ℕ → Files → Files
copied dest bytes files path = if path == dest then ok bytes else files path

module _ (rt : Runtime) (H : Hasher) (basename : String → String) where
  -- `dest`
  abbrev pub destination_of : Arguments → String
  destination_of args = args.root <> "/asphallea/_core/" <> basename (source_of args)

  -- `main`
  unfoldable pub bundle : Arguments → Tree → Result Tree
  unfolding source_of
  bundle args tree = elim (tree.files (source_of args)) [
    | raise x ↦ raise (
        error (
          "core binary not found: "
          <> source_of args
          <> "\nBuild it first: (cd core && cargo build --release)"))
    | ok bytes ↦
        if source_of args == destination_of args
        then raise
            (os_error (source_of args <> " and " <> destination_of args <> " are the same file"))
        else (do
          let files = copied (destination_of args) bytes tree.files
          manifest ← write_manifest rt H files basename tree.manifest (destination_of args)
          ok (record { files = files; manifest = manifest }))
  ]

module _ (rt : Runtime) (H : Hasher) (basename : String → String) (args : Arguments)
    (before : Tree) where
  bundle-write_manifest :
      {after : Tree}
      → bundle rt H basename args before ≡ ok after
      → write_manifest rt H after.files basename before.manifest (destination_of rt H basename args)
        ≡ ok after.manifest
  unfolding bundle
  bundle-write_manifest {after} done = elim (Result-cases (before.files (source_of args))) [
    | inr (x, missing) ↦ absurd (ground arith)
    | inl (bytes, there) ↦ elim (Bool-cases (source_of args == destination_of rt H basename args)) [
      | inl same ↦ absurd (ground arith)
      | inr other ↦
          let (manifest, wrote, made) =
            >>=-ok {Y = Tree} {y = after}
              (write_manifest rt H (copied (destination_of rt H basename args) bytes before.files)
                basename before.manifest (destination_of rt H basename args))
              (λ manifest. ok (record {
                files = copied (destination_of rt H basename args) bytes before.files;
                manifest = manifest;
              }))
              (ground arith) in
          subst
            (λ tree.
              write_manifest rt H tree.files basename before.manifest
                (destination_of rt H basename args)
              ≡ ok tree.manifest)
            (ok-injective made) wrote
    ]
  ]

  -- If the script ends, the binary that it has put into the package is verified against the manifest that
  -- it leaves, whatever manifest was there.
  pub bundle-verify_core :
      {after : Tree}
      → bundle rt H basename args before ≡ ok after
      → (verify_core rt H after.files basename after.manifest none
          (destination_of rt H basename args)).verified
        ≡ true
  unfolding write_manifest
  bundle-verify_core {after} done =
      let path = destination_of rt H basename args in
      let wrote = bundle-write_manifest done in
      let (digest, was, rest) = >>=-ok (sha256_file H after.files path) _ wrote in
      let expected =
        (write_manifest-verify_core rt H after.files after.files basename before.manifest
            after.manifest path wrote was was).1
          path in
      (verify_core-is_ok rt H after.files basename after.manifest path was).1.1
        (expected ∙ (rw (==_refl (basename path)) refl))
