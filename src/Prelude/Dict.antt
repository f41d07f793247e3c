-- ===== src/Prelude/Dict.antt =====
-- Python's `dict` with text keys, in insertion order, and `defaultdict`.
use asphallea.Prelude.Tests.{◌==◌, if◌then◌else◌}
use Prim.Native.String.{String}
use mathlib.Core.Path.{◌≡◌, refl}
use mathlib.Core.Bool.{Bool, true, false}
use mathlib.Core.List.{List, [], ◌∷◌}
use mathlib.Core.Option.{Option, none, some}
use native.Mathlib.Omega.{arith}

abbrev pub Dict {ℓ} : Type ℓ → Type ℓ
Dict V = List (String × V)

module _ {ℓ} {V : Type ℓ} where
  -- `d.get(k)`
  unfoldable pub lookup : String → Dict V → Option V
  lookup k [] = none
  lookup k ((j, v) ∷ d) = if k == j then some v else lookup k d

  -- `d[k] = v`
  unfoldable pub insert : String → V → Dict V → Dict V
  insert k v [] = (k, v) ∷ []
  insert k v ((j, w) ∷ d) = let rest = insert k v d in if k == j then (k, v) ∷ d else (j, w) ∷ rest

  abbrev pub or_default : Option V → V → V
  or_default none v = v
  or_default (some w) v = w

  -- `d.get(k, default)`, and the value that `d[k]` of a `defaultdict` gives.
  abbrev pub get_or : String → Dict V → V → V
  get_or k d v = or_default (lookup k d) v

  -- Reading `d[k]` of a `defaultdict` stores the default under a missing key.
  abbrev pub touch : String → V → Dict V → Dict V
  touch k v d = elim (lookup k d) [ none ↦ insert k v d | some w ↦ d ]

  -- `k in d`
  abbrev pub has_key : String → Dict V → Bool
  has_key k d = elim (lookup k d) [ none ↦ false | some v ↦ true ]

  pub lookup-insert :
      (j k : String) (v : V) (d : Dict V)
      → lookup j (insert k v d) ≡ (if j == k then some v else lookup j d)
  unfolding lookup insert
  lookup-insert j k v [] = refl
  lookup-insert j k v ((i, w) ∷ d) = ground (arith, lookup-insert j k v d)

  pub get_or-insert :
      (j k : String) (v w : V) (d : Dict V)
      → get_or j (insert k v d) w ≡ (if j == k then v else get_or j d w)
  get_or-insert j k v w d = ground (arith, lookup-insert j k v d)

  -- Storing the default changes no value that is read with this default.
  pub get_or-touch : (j k : String) (v : V) (d : Dict V) → get_or j (touch k v d) v ≡ get_or j d v
  get_or-touch j k v d = ground (arith, lookup-insert j k v d)
