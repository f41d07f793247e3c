-- ===== src/Value.antt =====
-- The values of Python that tool arguments, policy data and audit records hold.

-- `float` counts units of 10⁻⁹; NaN and the infinities are no values here. `object` is a value of any other class, by an identity.
use asphallea.Prelude.{Bool, List, String, ◌∷◌, []}
use asphallea.Prelude.Int.{ℤ}

mutual
  pub data Value : Type 0 where
    null : Value
    bool : Bool → Value
    int : ℤ → Value
    float : ℤ → Value
    str : String → Value
    list : Items → Value
    tuple : Items → Value
    set : Items → Value
    dict : Fields → Value
    object : ℤ → Value

  pub data Items : Type 0 where
    nil : Items
    cons : Value → Items → Items

  -- The entries of a `dict` in order, with keys that need be no texts.
  pub data Fields : Type 0 where
    end : Fields
    field : Value → Value → Fields → Fields

abbrev pub items : Items → List Value
items nil = []
items (cons v vs) = v ∷ items vs
