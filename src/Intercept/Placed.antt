-- ===== src/Intercept/Placed.antt =====
-- On `decide` of asphallea/intercept.py under a policy that a builder made: where the paths really lie.
use asphallea.Prelude.{◌≡◌, ◌∙◌, sym, String, true, In, Option, some, ◌++◌}
use asphallea.Prelude.Dict.{Dict, lookup}
use asphallea.Runtime.{Runtime}
use asphallea.Value.{Value}
use asphallea.Errors.{ok}
use asphallea.Audit.{AuditSink}
use asphallea.Policy.{Policy}
use asphallea.Policy.Queries.{args_for}
use asphallea.Policy.Builder.{Builder, build}
use asphallea.Policy.Builder.Boundary.{LiesWithin, build-LiesWithin}
use asphallea.Engine.Boundary.{PathLaws}
use asphallea.Engine.Rules.{admitted}
use asphallea.Intercept.{Interceptor, Keywords, Moment, as_tuple, decide, or_no_arguments, texts_of}
use asphallea.Intercept.Governed.{Governs, decide-Governs}
use mathlib.Core.Path.{subst}

module _ (S : AuditSink) (rt : Runtime) (laws : PathLaws rt) (b : Builder) (tool : String)
    (arguments : Option (Dict Value)) (kw : Keywords) (now : Moment) (gate : Interceptor S)
    {p : Policy} (made : build rt b ≡ ok p) (own : gate.policy ≡ p)
    (engine_own : gate.engine.policy ≡ p)
    (allowed : admitted (decide S rt tool arguments kw now gate).0 ≡ true) where
  governs : Governs rt p tool (or_no_arguments arguments) kw
  governs =
      subst (λ q. Governs rt q tool (or_no_arguments arguments) kw) own
        (decide-Governs S rt tool arguments kw now gate (own ∙ sym engine_own) allowed)

  module _ (name text : String) (v : Value) (has : lookup name (or_no_arguments arguments) ≡ some v)
      (member : In text (texts_of rt v)) where
    -- If `decide` allows a call under a policy that a builder made, every text of every argument that the
    -- policy declares as written, or that the caller names so, really lies at or under a path that the builder
    -- was given to write, component by component; for a list, each of its entries. `os.path` is assumed to keep
    -- what it documents.
    pub decide-LiesWithin :
        In name ((args_for p tool).writes ++ as_tuple kw.writes)
        → LiesWithin rt laws b.write_paths text
    decide-LiesWithin named =
        (build-LiesWithin rt laws b text made).0.0 (governs.writes name text v named has member)

    -- For an argument that is read, the places are those to read and those to write.
    decide-LiesWithin_read :
        In name ((args_for p tool).reads ++ as_tuple kw.reads)
        → LiesWithin rt laws (b.read_paths ++ b.write_paths) text
    decide-LiesWithin_read named =
        (build-LiesWithin rt laws b text made).1.0 (governs.reads name text v named has member)
