-- ===== src/Policy/Documents/Sound.antt =====
-- On `from_dict` of asphallea/policy.py: the limits of the policies that it loads.
use asphallea.Prelude.{refl, List, [], arith, true, ◌≡◌, ◌∷◌}
use asphallea.Policy.Builder.{apply, Builder, Method}
use asphallea.Errors.{Result, ok, raise, ◌>>=◌, Exception}
use asphallea.Policy.Builder.Sound.{limits_hold, apply-limits_hold}
use asphallea.Policy.Documents.Sections.{each, each_entry}
use asphallea.Value.{Fields, Value, end, field}
use asphallea.Runtime.{Runtime}
use asphallea.Policy.{Policy}

-- A builder that is returned has limits that its methods accept.
record Holds (r : Result Builder) : Type 0 where
  at : (b : Builder) → r ≡ ok b → limits_hold b ≡ true

Holds-ok : (b : Builder) → limits_hold b ≡ true → Holds (ok b)
Holds-ok b h = record { at = λ b' e. ground arith }

Holds-raise : (x : Exception) → Holds (raise x)
Holds-raise x = record { at = λ b e. absurd (ground arith) }

Holds-bind :
    {A : Type 0} (m : Result A) (f : A → Result Builder) → ((a : A) → Holds (f a)) → Holds (m >>= f)
Holds-bind (ok a) f h = h a
Holds-bind (raise x) f h = Holds-raise x

Holds-then :
    (m : Result Builder) (f : Builder → Result Builder)
    → Holds m
    → ((b : Builder) → limits_hold b ≡ true → Holds (f b))
    → Holds (m >>= f)
Holds-then (ok b) f hm h = h b (hm.at b refl)
Holds-then (raise x) f hm h = Holds-raise x

module _ (rt : Runtime) where
  Holds-apply : (m : Method) (b : Builder) → limits_hold b ≡ true → Holds (apply rt m b)
  Holds-apply m b h = record { at = λ b' e. apply-limits_hold rt m b e h }

Holds-each :
    (step : Value → Builder → Result Builder) (vs : List Value) (b : Builder)
    → ((v : Value) (b : Builder) → limits_hold b ≡ true → Holds (step v b))
    → limits_hold b ≡ true
    → Holds (each step vs b)
unfolding each
Holds-each step [] b each_holds h = Holds-ok b h
Holds-each step (v ∷ vs) b each_holds h =
    Holds-then (step v b) (each step vs) (each_holds v b h)
      λ b' h'. Holds-each step vs b' each_holds h'

Holds-each_entry :
    (step : Value → Value → Builder → Result Builder) (fs : Fields) (b : Builder)
    → ((k v : Value) (b : Builder) → limits_hold b ≡ true → Holds (step k v b))
    → limits_hold b ≡ true
    → Holds (each_entry step fs b)
unfolding each_entry
Holds-each_entry step end b each_holds h = Holds-ok b h
Holds-each_entry step (field k v fs) b each_holds h =
    Holds-then (step k v b) (each_entry step fs) (each_holds k v b h)
      λ b' h'. Holds-each_entry step fs b' each_holds h'

ruleset holds_rules =
    (Holds-then, Holds-bind, Holds-apply, Holds-each, Holds-each_entry, Holds-raise)
