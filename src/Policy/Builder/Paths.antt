-- ===== src/Policy/Builder/Paths.antt =====
-- On the lists of prefixes that `PolicyBuilder.build` of asphallea/policy.py makes, and their members.
use asphallea.Prelude.{List, String, [], arith, contains, refl, true, ◌≡◌, ◌||◌, ◌∷◌, ◌++◌}
use asphallea.Policy.Builder.{add, add_all}
use asphallea.Runtime.{Runtime}
use asphallea.Engine.{under_any, under_prefix}

pub contains-append :
    (xs ys : List String) (z : String) → contains (xs ++ ys) z ≡ contains xs z || contains ys z
contains-append [] ys z = refl
contains-append (x ∷ xs) ys z = ground (arith, contains-append xs ys z)

contains-add :
    (y : String) (xs : List String) (z : String)
    → contains (add y xs) z ≡ contains xs z || contains (y ∷ []) z
unfolding add
contains-add y xs z = ground (arith, contains-append xs (y ∷ []) z)

pub contains-add_all :
    (xs ys : List String) (z : String) → contains (add_all xs ys) z ≡ contains xs z || contains ys z
unfolding add_all
contains-add_all xs [] z = ground arith
contains-add_all xs (y ∷ ys) z =
    ground (arith, contains-add_all (add y xs) ys z, contains-add y xs z)

module _ (rt : Runtime) (real : String) where
  pub under_any-contains :
      (prefixes : List String) (prefix : String)
      → contains prefixes prefix ≡ true
      → under_prefix rt real prefix ≡ true
      → under_any rt real prefixes ≡ true
  unfolding under_any
  under_any-contains [] prefix h under = absurd (ground arith)
  under_any-contains (p ∷ ps) prefix h under = ground (arith, under_any-contains ps prefix)
