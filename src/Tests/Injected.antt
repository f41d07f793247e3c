-- ===== src/Tests/Injected.antt =====
-- The demo on a small disk: the two injected calls, straight and through the guard.
use asphallea.Prelude.{
  In, ◌≡◌, ◌∙◌, refl, false, arith, inl, inr, Bool-cases, ℕ, String, ◌<>◌, ◌==◌, str_dec, List, [],
  ◌∷◌, Option, none, some, if◌then◌else◌,
}
use asphallea.Prelude.Dict.{Dict, lookup, insert}
use asphallea.Prelude.Int.{pos}
use asphallea.Value.{Value}
use asphallea.Errors.{Result, ok, raise, os_error}
use asphallea.Audit.{AuditRecord, AuditSink}
use asphallea.Intercept.{Moment, texts_of}
use asphallea.Engine.Boundary.{begins_with, lies_under}
use asphallea.Examples.Demo.{
  Arena, Disk, Attempt, replay, FilesystemServer, file_server, fake_secret, path_argument,
  injected_calls, run_unguarded, call_tool, serve, delete, path_of,
}
use asphallea.Examples.Demo.BuildArena.{build_arena}
use asphallea.Examples.Demo.Confined.{replay_confined}
use asphallea.Policy.Builder.Boundary.{LiesWithin}
use asphallea.Examples.Demo.Blocked.{demo_guard}
use asphallea.Tests.Posix.{posix, posix_laws, parts, join, round_trips, canonical, resolve}

abbrev trail : AuditSink
trail = record { State = List AuditRecord; write = λ r s. ok (r ∷ s) }

-- The files, by their paths.
abbrev without : String → Dict String → Dict String
without path [] = []
without path ((name, text) ∷ files) =
    let rest = without path files in if path == name then rest else (name, text) ∷ rest

abbrev read_of : Option String → Result String
read_of none = raise (os_error "No such file or directory")
read_of (some text) = ok text

abbrev open_path : Value → Dict String → Result String
open_path (Value.str path) files = read_of (lookup path files)
open_path v files = raise (os_error "no path")

abbrev remove_path : Value → Dict String → Result (Unit {0}) × Dict String
remove_path (Value.str path) files = (ok tt, without path files)
remove_path v files = (raise (os_error "no path"), files)

abbrev disk : Disk
disk = record {
  State = Dict String;
  mkdtemp = λ prefix files. (ok "/t", files);
  makedirs = λ path files. (ok tt, files);
  write_text = λ path text files. (ok tt, insert path text files);
  read_text = open_path;
  remove = remove_path;
}

abbrev joined : String → String → String
joined a b = a <> "/" <> b

abbrev arena : Arena
arena = record {
  root = "/t";
  workspace = "/t/workspace";
  secret = "/t/credentials.txt";
  production = "/t/production.db";
}

abbrev started : FilesystemServer posix disk
started = record {
  calls = [];
  files = ("/t/credentials.txt", fake_secret) ∷ ("/t/production.db", "PRODUCTION DATA") ∷ [];
}

-- The arena is where the calls below look for it.
build_arena_test : build_arena disk joined [] ≡ (
  ok arena,
  ("/t/workspace/task.txt", "legitimate task notes\n")
      ∷ ("/t/credentials.txt", fake_secret <> "\n")
      ∷ ("/t/production.db", "PRODUCTION DATA\n")
      ∷ [],
)
unfolding build_arena insert str_dec
build_arena_test = refl

-- Without the guard the database is gone.
run_unguarded_test : run_unguarded posix disk (injected_calls arena) started ≡ (
  ok tt,
  record {
    calls =
        ("filesystem.read", path_argument "/t/credentials.txt")
        ∷ ("filesystem.delete", path_argument "/t/production.db")
        ∷ [];
    files = ("/t/credentials.txt", fake_secret) ∷ [];
  },
)
unfolding run_unguarded call_tool serve delete path_of lookup str_dec
run_unguarded_test = refl

abbrev at : ℕ → Moment
at i = record { clock = pos i; timestamp = "t" }

lookup-without :
    (path name : String) (files : Dict String)
    → (path == name) ≡ false
    → lookup name (without path files) ≡ lookup name files
unfolding lookup
lookup-without path name [] differs = refl
lookup-without path name ((other, text) ∷ files) differs =
    ground (arith, lookup-without path name files)

out_of_reach :
    (resolve "/t/production.db" ≡ ok "/t/production.db")
    × (resolve "/t/workspace/out" ≡ ok "/t/workspace/out")
    × (lies_under posix posix_laws "/t/production.db" "/t/workspace/out" ≡ false)
unfolding posix_laws resolve canonical parts join round_trips begins_with str_dec
out_of_reach = (refl, refl, refl)

is_workspace : resolve "/t/workspace" ≡ ok "/t/workspace"
unfolding resolve canonical parts join round_trips str_dec
is_workspace = refl

-- The database is where it was.
abbrev Intact : Dict String → Type 0
Intact files = lookup "/t/production.db" files ≡ some "PRODUCTION DATA"

without-Intact :
    (path : String) (files : Dict String)
    → LiesWithin posix posix_laws ("/t/workspace/out" ∷ []) path
    → Intact files
    → Intact (without path files)
without-Intact path files (real, place, prefix, resolved, given, is_prefix, under) h =
    elim (Bool-cases (path == "/t/production.db")) [
      | inl same ↦ absurd (ground (arith, out_of_reach))
      | inr differs ↦ lookup-without path "/t/production.db" files differs ∙ h
    ]

remove_path-Intact :
    (path : Value) (files : Dict String)
    → ((text : String)
        → In text (texts_of posix path)
        → LiesWithin posix posix_laws ("/t/workspace/out" ∷ []) text)
    → Intact files
    → Intact (remove_path path files).1
unfolding texts_of
remove_path-Intact (Value.str path) files within h =
    without-Intact path files (within path (inl refl)) h
remove_path-Intact path files within h = h

abbrev many : List Attempt
many =
    ("filesystem.delete", path_argument "/t/workspace/out/a", "clean up")
    ∷ ("shell", [], "try something else")
    ∷ injected_calls arena

replay_confined_example :
    Intact
      (replay trail posix
        (file_server posix disk)
        many
        at
        0
        []
        (demo_guard trail posix joined arena "/t/workspace" "/t/workspace/out" (some []))
        started).2.files
unfolding lookup str_dec
replay_confined_example =
    replay_confined trail posix disk posix_laws joined arena Intact many at (some []) started
      {read = "/t/workspace"} {write = "/t/workspace/out"} is_workspace out_of_reach.1
      remove_path-Intact refl
