-- ===== src/Packaging/Released.antt =====
-- On scripts/verify_wheel.py: what a wheel has that passes.
use asphallea.Prelude.{
  Bool, In, List, String, [], arith, contains, false, inl, inr, is_empty, keep, not, true, ◌&&◌,
  ◌==◌, ◌≡◌, ◌∷◌, ◌≤◌, Bool-cases, List-cases, Option, Option-cases, none, some,
}
use asphallea.Packaging.Release.{main, WheelFile, failures_of, verify_wheel}
use asphallea.Packaging.Wheel.{
  require, Archive, check_tag, check_tags, core_names, manifest_name, mentions, platform_of,
  tags_of, wheel_meta, check_core, core_of, static_check, Report, Venv, check_report, live_check,
  probe_report,
}
use asphallea.Errors.{ok, >>=-ok, Result-cases}
use asphallea.Packaging.Texts.{starts_with}
use asphallea.Policy.Hosts.{rsplit_last}
use asphallea.Runtime.{Runtime}
use asphallea.Value.{Value}
use asphallea.Sandbox.Capabilities.{Capabilities, can_contain}
use asphallea.Integrity.{IntegrityResult}
use asphallea.Prelude.Int.{pos}

-- Whether the index takes a platform for a wheel with a binary.
abbrev pub is_uploadable : String → Bool
is_uploadable platform = not (platform == "any") && not (starts_with platform "linux_")

-- An archive with a core binary that is not empty, a manifest that names it, and tags that the index takes.
pub record Ships (rt : Runtime) (a : Archive) : Type 0 where
  pub core : String
  pub lines : List String
  pub manifest : Value
  pub meta : String
  pub core_listed : In core a.names
  pub core_known : contains core_names core ≡ true
  pub core_filled : 1 ≤ a.file_size core
  pub manifest_listed : contains a.names manifest_name ≡ true
  pub manifest_read : a.loads manifest_name ≡ ok manifest
  pub core_named : mentions manifest (rsplit_last b'/' core) ≡ ok true
  pub meta_found : wheel_meta a.names ≡ ok meta
  pub meta_read : a.lines meta ≡ ok lines
  pub tagged : is_empty (tags_of rt lines) ≡ false
  pub uploadable :
      (tag : String) → In tag (tags_of rt lines) → is_uploadable (platform_of tag) ≡ true

keep-In :
    (p : String → Bool) (xs : List String) {x : String} {rest : List String}
    → keep p xs ≡ x ∷ rest
    → (In x xs) × (p x ≡ true)
keep-In p [] h = absurd (ground arith)
keep-In p (y ∷ xs) {rest = rest} h = elim (Bool-cases (p y)) [
  | inl kept ↦ (inl (ground arith), ground arith)
  | inr dropped ↦
      let (member, holds) = keep-In p xs {rest = rest} (ground arith) in (inr member, holds)
]

check_tags-uploadable :
    (name : String) (tags : List String)
    → check_tags name tags ≡ ok tt
    → (tag : String) → In tag tags
    → is_uploadable (platform_of tag) ≡ true
unfolding check_tags check_tag
check_tags-uploadable name [] h tag member = absurd member
check_tags-uploadable name (t ∷ tags) h tag (inl e) = ground arith
check_tags-uploadable name (t ∷ tags) h tag (inr member) =
    check_tags-uploadable name tags (ground arith) tag member

module _ (rt : Runtime) (a : Archive) where
  core_of-found :
      {core : String} → core_of a ≡ ok core → (In core a.names) × (contains core_names core ≡ true)
  unfolding core_of
  core_of-found found = elim (List-cases (keep (contains core_names) a.names)) [
    | inl nothing ↦ absurd (ground arith)
    | inr (core, others, split) ↦
        let (member, known) = keep-In (contains core_names) a.names split in
        (ground arith, ground arith)
  ]

  static_check-Ships : {text : String} → static_check rt a ≡ ok text → Ships rt a
  unfolding static_check check_core
  static_check-Ships passed =
      let (meta, found, rest) = >>=-ok (wheel_meta a.names) _ passed in
      let (lines, read, rest1) = >>=-ok (a.lines meta) _ rest in
      let (u, core_passed, rest2) = >>=-ok (check_core a) _ rest1 in
      let (u1, tags_passed, rest3) = >>=-ok (check_tags a.name (tags_of rt lines)) _ rest2 in
      let (core, has_core, core_rest) = >>=-ok (core_of a) _ core_passed in
      let (u2, listed, core_rest1) =
        >>=-ok (require (contains a.names manifest_name) _) _ core_rest in
      let (manifest, loaded, core_rest2) = >>=-ok (a.loads manifest_name) _ core_rest1 in
      let (named, mentioned, core_rest3) =
        >>=-ok (mentions manifest (rsplit_last b'/' core)) _ core_rest2 in
      record {
        core = core;
        lines = lines;
        manifest = manifest;
        meta = meta;
        core_listed = (core_of-found has_core).0;
        core_known = (core_of-found has_core).1;
        core_filled = ground arith;
        manifest_listed = ground arith;
        manifest_read = loaded;
        core_named = ground arith;
        meta_found = found;
        meta_read = read;
        tagged = ground arith;
        uploadable = check_tags-uploadable a.name (tags_of rt lines) tags_passed;
      }

-- What a wheel has that passes: it ships a core, and when it was installed to be proved, its report says
-- that it contains.
pub record IsReleased (rt : Runtime) (live : Bool) (wheel : WheelFile) : Type 0 where
  pub archive : Archive
  pub opened : wheel.archive ≡ ok archive
  pub ships : Ships rt archive
  pub live_result : Option Report
  pub live_passed : live ≡ true → live_check rt archive.name wheel.venv ≡ ok live_result

verify_wheel-IsReleased :
    (rt : Runtime) (live : Bool) (wheel : WheelFile)
    → verify_wheel rt live wheel ≡ ok tt
    → IsReleased rt live wheel
unfolding verify_wheel
verify_wheel-IsReleased rt live wheel passed =
    let (archive, opened, rest) = >>=-ok wheel.archive _ passed in
    let (tags, checked, last) = >>=-ok (static_check rt archive) _ rest in
    elim (Result-cases (live_check rt archive.name wheel.venv)) [
      | inl (report, proved) ↦ record {
        archive = archive;
        opened = opened;
        ships = static_check-Ships rt archive checked;
        live_result = report;
        live_passed = λ asked. proved;
      }
      | inr (x, failed) ↦ record {
        archive = archive;
        opened = opened;
        ships = static_check-Ships rt archive checked;
        live_result = none;
        live_passed = λ asked. absurd (ground arith);
      }
    ]

failures_of-none :
    (rt : Runtime) (live : Bool) (wheels : List WheelFile) (wheel : WheelFile)
    → failures_of rt live wheels ≡ ok []
    → In wheel wheels
    → wheel.suffix ≡ ".whl"
    → verify_wheel rt live wheel ≡ ok tt
unfolding failures_of
failures_of-none rt live [] wheel h member is_wheel = absurd member
failures_of-none rt live (w ∷ wheels) wheel h (inl e) is_wheel =
    ground (arith, Result-cases (verify_wheel rt live w), Result-cases (failures_of rt live wheels))
failures_of-none rt live (w ∷ wheels) wheel h (inr member) is_wheel =
    failures_of-none rt live wheels wheel
      (ground
        (arith, Result-cases (verify_wheel rt live w), Result-cases (failures_of rt live wheels)))
      member is_wheel

-- If the run ends with exit code 0, every wheel on its command line can be opened, holds a core binary that
-- is not empty and a manifest that names it, and has tags, each of a platform that the index takes; and if
-- the run was asked for it, its live check passed or found another platform.
pub main-IsReleased :
    (rt : Runtime) (live : Bool) (wheels : List WheelFile) (wheel : WheelFile)
    → main rt live wheels ≡ ok (pos 0)
    → In wheel wheels
    → wheel.suffix ≡ ".whl"
    → IsReleased rt live wheel
unfolding main
main-IsReleased rt live wheels wheel ended member is_wheel =
    let (messages, verified, code) = >>=-ok (failures_of rt live wheels) _ ended in
    verify_wheel-IsReleased rt live wheel
      (failures_of-none rt live wheels wheel (ground arith) member is_wheel)

-- If the live check passes a wheel on the report that the probe makes of capabilities and of a check of
-- integrity, the installed package has found a core binary, that binary is verified against the manifest,
-- and the host contains with it.
live_check-contains :
    (rt : Runtime) (name : String) (venv : Venv) (caps : Capabilities)
    (verify : String → IntegrityResult) {report : Report}
    → venv.probe ≡ ok (probe_report caps verify)
    → live_check rt name venv ≡ ok (some report)
    → ((binary : String) × (caps.core_binary ≡ some binary) × ((verify binary).verified ≡ true))
      × (can_contain caps ≡ true)
unfolding live_check check_report probe_report
live_check-contains rt name venv caps verify probed passed = elim (Option-cases caps.core_binary) [
  | inl missing ↦ absurd (ground arith)
  | inr (binary, found) ↦ ((binary, found, ground arith), ground arith)
]
