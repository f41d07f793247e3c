-- ===== src/Tests/Release.antt =====
-- A wheel on its way to the index.
use asphallea.Prelude.{
  ℕ, List, if◌then◌else◌, ◌==◌, String, none, some, refl, true, str_dec, inl, [], ◌∷◌, ◌≡◌, false,
}
use asphallea.Packaging.Bundle.{Arguments, Tree, bundle, bundle-verify_core, source_of}
use asphallea.Integrity.{
  Hasher, missing, document, verify_core, write_manifest, sha256_file, feed, IntegrityResult,
}
use asphallea.Prelude.Dict.{insert}
use asphallea.Errors.{raise, os_error, ok}
use asphallea.Packaging.Wheel.{
  Archive, Venv, check_tag, probe_report, wheel_meta, tags_of, mentions, core_of, check_core,
  check_tags, static_check, live_check, check_report,
}
use asphallea.Packaging.Release.{WheelFile, verify_wheel, failures_of, main}
use asphallea.Packaging.Released.{IsReleased, main-IsReleased}
use asphallea.Packaging.Texts.{starts_with, contains_text, after_first, join}
use asphallea.Policy.Hosts.{
  ends_with, rsplit_last, has_code, strip, strip_left, strip_right, is_space,
}
use asphallea.Sandbox.Capabilities.{Capabilities, can_contain, explain, dimensions, no_capabilities}
use asphallea.Runtime.{find}
use asphallea.Tests.Data.{runtime}
use asphallea.Value.{Value, field, end}
use asphallea.Prelude.Int.{pos}

abbrev archive : Archive
archive = record {
  name = "w.whl";
  names =
      "asphallea/_core/asphallea-run" ∷ "asphallea/_core/checksums.json"
      ∷ "asphallea.dist-info/WHEEL" ∷ [];
  lines = λ n. ok ("Wheel-Version: 1.0" ∷ "Tag: py3-none-manylinux_2_17_x86_64" ∷ []);
  loads = λ n. ok (Value.dict (field (Value.str "asphallea-run") (Value.dict end) end));
  file_size = λ n. 9;
}

abbrev installed : String
installed = "/v/site-packages/asphallea/_core/asphallea-run"

abbrev found : Capabilities
found = record (no_capabilities "linux" (some installed)) {
  filesystem_sandbox = true;
  backend = "linux";
}

abbrev sound : String → IntegrityResult
sound path = record { is_ok = true; method = "sha256"; verified = true; sha256 = "0"; reason = "" }

abbrev venv : Venv
venv = record { returncode = pos 0; stderr = ""; probe = ok (probe_report found sound) }

abbrev wheel : WheelFile
wheel = record { suffix = ".whl"; archive = ok archive; venv = venv }

main-IsReleased_example : IsReleased runtime true wheel
unfolding live_check check_report probe_report starts_with contains_text can_contain explain
    dimensions str_dec main failures_of verify_wheel static_check wheel_meta tags_of mentions
    core_of check_core check_tag check_tags join after_first ends_with rsplit_last has_code strip
    strip_left strip_right is_space find
main-IsReleased_example = main-IsReleased runtime true (wheel ∷ []) wheel refl (inl refl) refl

-- A digest of the last piece.
abbrev digest_of : List ℕ → String
digest_of [] = "0A"
digest_of (b ∷ bytes) = "1A"

abbrev last_piece : Hasher
last_piece = record { State = List ℕ; init = []; update = λ h bytes. bytes; hexdigest = digest_of }

-- One binary in the whole tree.
abbrev tree : Tree
tree = record {
  files = λ path.
      if path == "/r/core/target/release/asphallea-run" then ok (7 ∷ []) else raise (os_error path);
  manifest = missing;
}

abbrev line : Arguments
line = record { root = "/r"; is_nt = false; binary = none; profile = "release" }

abbrev name_of : String → String
name_of path = "asphallea-run"

abbrev bundled : Tree
bundled = record {
  files =
      λ path. if path == "/r/asphallea/_core/asphallea-run" then ok (7 ∷ []) else tree.files path;
  manifest = document (("asphallea-run", ("sha256", Value.str "1A") ∷ []) ∷ []);
}

bundle-verify_core_example :
    (verify_core runtime last_piece bundled.files name_of bundled.manifest none
      "/r/asphallea/_core/asphallea-run").verified
    ≡ true
unfolding bundle source_of write_manifest sha256_file feed insert str_dec
bundle-verify_core_example =
    bundle-verify_core runtime last_piece name_of line tree {after = bundled} refl
