-- ===== src/Sandbox/World.antt =====
-- What `run` reads and changes: a state monad with exceptions. What was done before an exception stays
-- done.
use asphallea.Prelude.{List, Option, String}
use asphallea.Audit.{AuditSink}
use asphallea.Engine.{Engine}
use asphallea.Sandbox.Capabilities.{Capabilities}
use asphallea.Prelude.Dict.{Dict}
use asphallea.Errors.{Result, ok, raise}
use asphallea.Value.{Value}

-- What `run` does to the world outside the program, in order.
pub data Effect : Type 0 where
  warned : String → Effect
  printed : String → Effect
  made_folder removed_folder : Effect
  wrote_policy : String → Dict Value → Effect
  launched : List String → Effect
  killed_group : Effect
  killed_process : Effect

module _ (S : AuditSink) where
  pub record World : Type 0 where
    pub engine : Engine
    pub audit : Option S.State
    pub caps_cache : Option Capabilities
    pub trace : List Effect

  abbrev pub Action : Type 0 → Type 0
  Action A = World → Result A × World

abbrev pub continue :
    {S : AuditSink} {A B : Type 0} → Result A × World S → (A → Action S B) → Result B × World S
continue (ok a, w) f = f a w
continue (raise x, w) f = (raise x, w)

infixl 5 ◌>>=◌ ◌>>◌
abbrev pub ◌>>=◌ : {S : AuditSink} {A B : Type 0} → Action S A → (A → Action S B) → Action S B
◌>>=◌ m f w = continue (m w) f

abbrev pub ◌>>◌ : {S : AuditSink} {B : Type 0} → Action S (Unit {0}) → Action S B → Action S B
m >> k = m >>= λ _. k
