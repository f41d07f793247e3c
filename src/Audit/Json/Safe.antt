-- ===== src/Audit/Json/Safe.antt =====
-- On `_json_safe` of asphallea/audit.py: the values that it returns.
use text.Mathlib.TextLemmas.{nil-append, cons-append}
use asphallea.Prelude.{ℕ, zero, suc, ◌+◌, ◌≤◌, ◌≡◌, refl, String, ◌<>◌, arith}
use asphallea.Runtime.{Runtime, str_of}
use asphallea.Value.{Value, Items, nil, cons, Fields, end, field}
use asphallea.Audit.Json.{
  text_length, text_take, max_value_length, bounded, set_field, json_safe, json_safe_items,
  json_safe_fields,
}

-- A JSON value: no tuple, set or object in it, only texts as keys, and
-- its texts are short, but for the keys.
abbrev mutual
  pub IsSafe : Value → Type 0
  IsSafe (Value.str s) = text_length s ≤ max_value_length + 14
  IsSafe (Value.list vs) = AreSafe vs
  IsSafe (Value.dict fs) = HoldsSafe fs
  IsSafe (Value.tuple vs) = ⊥
  IsSafe (Value.set vs) = ⊥
  IsSafe (Value.object n) = ⊥
  IsSafe _ = Unit

  pub AreSafe : Items → Type 0
  AreSafe nil = Unit
  AreSafe (cons v vs) = IsSafe v × AreSafe vs

  pub HoldsSafe : Fields → Type 0
  HoldsSafe end = Unit
  HoldsSafe (field k v fs) = ((j : String) × (k ≡ Value.str j)) × IsSafe v × HoldsSafe fs

text_length-append : (s t : String) → text_length (s <> t) ≡ text_length s + text_length t
unfolding text_length
text_length-append String.[] t = rw nil-append (omega arith)
text_length-append (String.◌∷◌ c s) t = rw cons-append (omega (arith, text_length-append s t))

text_length-take : (n : ℕ) (s : String) → text_length (text_take n s) ≤ n
unfolding text_length text_take
text_length-take zero s = omega arith
text_length-take (suc n) String.[] = omega arith
text_length-take (suc n) (String.◌∷◌ c s) = omega (arith, text_length-take n s)

mark_length : text_length "...[truncated]" ≡ 14
unfolding text_length
mark_length = refl

text_length-bounded : (s : String) → text_length (bounded s) ≤ max_value_length + 14
unfolding bounded
text_length-bounded s = ground (
  arith,
  text_length-append (text_take max_value_length s) "...[truncated]",
  text_length-take max_value_length s,
  mark_length,
)

set_field-HoldsSafe :
    (k : String) (v : Value) (fs : Fields) → IsSafe v → HoldsSafe fs → HoldsSafe (set_field k v fs)
unfolding set_field
set_field-HoldsSafe k v end h hs = ((k, refl), h, tt)
set_field-HoldsSafe k v (field j w fs) h (text, safe, hs) =
    ground (arith, set_field-HoldsSafe k v fs h hs)

mutual
  unfolding json_safe

  safe : (rt : Runtime) (v : Value) → IsSafe (json_safe rt v)
  safe rt Value.null = tt
  safe rt (Value.bool b) = tt
  safe rt (Value.int n) = tt
  safe rt (Value.float x) = tt
  safe rt (Value.str s) = text_length-bounded s
  safe rt (Value.dict fs) = safe_fields rt fs end tt
  safe rt (Value.list vs) = safe_items rt vs
  safe rt (Value.tuple vs) = safe_items rt vs
  safe rt (Value.set vs) = text_length-bounded (rt.repr (Value.set vs))
  safe rt (Value.object n) = text_length-bounded (rt.repr (Value.object n))

  safe_items : (rt : Runtime) (vs : Items) → AreSafe (json_safe_items rt vs)
  safe_items rt nil = tt
  safe_items rt (cons v vs) = (safe rt v, safe_items rt vs)

  safe_fields :
      (rt : Runtime) (fs done : Fields) → HoldsSafe done → HoldsSafe (json_safe_fields rt fs done)
  safe_fields rt end done h = h
  safe_fields rt (field k v fs) done h =
      safe_fields rt fs (set_field (str_of rt k) (json_safe rt v) done)
        (set_field-HoldsSafe (str_of rt k) (json_safe rt v) done (safe rt v) h)

-- Whatever value it is given, `_json_safe` returns a JSON value: no tuple, set or other object is left
-- at any depth, every key is a text, and no text but a key is longer than 512 characters and the mark.
pub json_safe-IsSafe : (rt : Runtime) (v : Value) → IsSafe (json_safe rt v)
json_safe-IsSafe rt v = safe rt v
