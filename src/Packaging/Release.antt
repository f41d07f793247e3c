-- ===== src/Packaging/Release.antt =====
-- scripts/verify_wheel.py: the run over all wheels, and what it lets pass.
use asphallea.Prelude.{
  Bool, List, Option, String, [], is_empty, none, some, ◌∷◌, if◌then◌else◌, ◌==◌,
}
use asphallea.Errors.{Result, ok, raise, verification_error, ◌>>=◌}
use asphallea.Packaging.Wheel.{Archive, Venv, live_check, static_check}
use asphallea.Runtime.{Runtime}
use asphallea.Prelude.Int.{pos, ℤ}

-- A path of the command line: what `zipfile` opens, and the environment into which it is installed.
pub record WheelFile : Type 0 where
  pub suffix : String
  pub archive : Result Archive
  pub venv : Venv

-- The `try` block for one wheel.
unfoldable pub verify_wheel : Runtime → Bool → WheelFile → Result (Unit {0})
verify_wheel rt live wheel = do
  a ← wheel.archive
  tags ← static_check rt a
  if live then (do report ← live_check rt a.name wheel.venv; ok tt) else ok tt

-- `except VerificationError`: the message of the failure, if there is one.
abbrev pub failure_of : Result (Unit {0}) → Result (Option String)
failure_of (ok _) = ok none
failure_of (raise (verification_error message)) = ok (some message)
failure_of (raise x) = raise x

abbrev push : Option String → List String → List String
push none messages = messages
push (some message) messages = message ∷ messages

-- The loop over the wheels, with the messages of the failures.
unfoldable pub failures_of : Runtime → Bool → List WheelFile → Result (List String)
unfolding verify_wheel
failures_of rt live [] = ok []
failures_of rt live (wheel ∷ wheels) =
    if wheel.suffix == ".whl"
    then (do
      failure ← failure_of (verify_wheel rt live wheel)
      messages ← failures_of rt live wheels
      ok (push failure messages))
    else failures_of rt live wheels

-- `main`, the exit code
unfoldable pub main : Runtime → Bool → List WheelFile → Result ℤ
unfolding failures_of
main rt live wheels = do
  messages ← failures_of rt live wheels
  ok (if is_empty messages then pos 0 else pos 1)
