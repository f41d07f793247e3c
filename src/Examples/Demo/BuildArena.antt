-- ===== src/Examples/Demo/BuildArena.antt =====
-- `build_arena` of examples/demo.py.
use asphallea.Prelude.{String, ◌<>◌}
use asphallea.Errors.{Result, ok, raise}
use asphallea.Examples.Demo.{Arena, Disk, fake_secret}

-- What is done to a disk, up to an exception.
abbrev Task : Type 0 → Type 0 → Type 0
Task S A = S → Result A × S

abbrev continue : {S A B : Type 0} → Result A × S → (A → Task S B) → Result B × S
continue (ok a, s) f = f a s
continue (raise x, s) f = (raise x, s)

infixl 5 ◌>>=◌ ◌>>◌
abbrev ◌>>=◌ : {S A B : Type 0} → Task S A → (A → Task S B) → Task S B
◌>>=◌ m f s = continue (m s) f

abbrev ◌>>◌ : {S B : Type 0} → Task S (Unit {0}) → Task S B → Task S B
m >> k = m >>= λ _. k

-- `build_arena`
unfoldable pub build_arena :
    (disk : Disk) → (String → String → String) → disk.State → Result Arena × disk.State
build_arena disk join = do
  root ← disk.mkdtemp "asphallea-demo-"
  let workspace = join root "workspace"
  disk.makedirs (join workspace "out")
  disk.write_text (join workspace "task.txt") "legitimate task notes\n"
  disk.write_text (join root "credentials.txt") (fake_secret <> "\n")
  disk.write_text (join root "production.db") "PRODUCTION DATA\n"
  λ files. (
    ok (record {
      root = root;
      workspace = workspace;
      secret = join root "credentials.txt";
      production = join root "production.db";
    }),
    files,
  )
