-- ===== src/Policy/CoreJson.antt =====
-- `to_core_json` of `ResourceLimits` and `Policy` in asphallea/policy.py.

use asphallea.Prelude.{List, Option, String, [], none, some, str_dec, ◌*◌, ◌≡◌, ◌∷◌, ◌++◌, arith}
use asphallea.Errors.{◌>>=◌, Result, ok, raise}
use asphallea.Prelude.Dict.{Dict, lookup}
use asphallea.Value.{Fields, Items, Value, cons, end, field, nil}
use asphallea.Policy.{Policy, ResourceLimits}
use asphallea.Prelude.Int.{ℤ, ◌*ℤ◌}
use asphallea.Runtime.{Runtime, to_int}

abbrev pub same_unit : ℤ → ℤ
same_unit n = n

abbrev pub in_bytes : ℤ → ℤ
in_bytes n = n *ℤ (1024 * 1024)

-- The entry of a limit: none if it is not set, and else its integer, scaled.
unfoldable pub entry : Runtime → String → (ℤ → ℤ) → Option Value → Result (Dict ℤ)
entry rt key scale none = ok []
entry rt key scale (some v) = do n ← to_int rt v; ok ((key, scale n) ∷ [])

-- `ResourceLimits.to_core_json`: megabytes become bytes, and a limit that is not set has no entry.
unfoldable pub limits_json : Runtime → ResourceLimits → Result (Dict ℤ)
unfolding entry
limits_json rt l = do
  cpu ← entry rt "cpu_seconds" same_unit l.cpu_seconds
  memory ← entry rt "memory_bytes" in_bytes l.memory_mb
  file_size ← entry rt "max_file_size_bytes" in_bytes l.max_file_size_mb
  processes ← entry rt "max_processes" same_unit l.max_processes
  open_files ← entry rt "max_open_files" same_unit l.max_open_files
  ok (cpu ++ (memory ++ (file_size ++ (processes ++ open_files))))

abbrev texts : List String → Items
texts [] = nil
texts (s ∷ rest) = cons (Value.str s) (texts rest)

abbrev numbers : Dict ℤ → Fields
numbers [] = end
numbers ((k, n) ∷ rest) = field (Value.str k) (Value.int n) (numbers rest)

-- `Policy.to_core_json`
unfoldable pub core_json : Runtime → Policy → Result (Dict Value)
unfolding limits_json
core_json rt p = do
  limits ← limits_json rt p.limits
  ok (
      ("name", Value.str p.name)
      ∷ (
        "filesystem",
        Value.dict (
            field (Value.str "read") (Value.list (texts p.read_paths))
              (field (Value.str "write") (Value.list (texts p.write_paths)) end)),
      )
      ∷ ("network", Value.str p.network)
      ∷ ("limits", Value.dict (numbers limits))
      ∷ [])

-- The integer of a limit, scaled.
abbrev pub scaled_limit : Runtime → (ℤ → ℤ) → Option Value → Option ℤ
scaled_limit rt scale none = none
scaled_limit rt scale (some v) = elim (to_int rt v) [ ok n ↦ some (scale n) | raise x ↦ none ]

-- Whenever the limits can be passed on: the core gets each limit under its own key just if it is set, as
-- an integer, and sizes in bytes.
pub lookup-limits_json :
    (rt : Runtime) (l : ResourceLimits) {d : Dict ℤ}
    → limits_json rt l ≡ ok d
    → (lookup "cpu_seconds" d ≡ scaled_limit rt same_unit l.cpu_seconds)
      × (lookup "memory_bytes" d ≡ scaled_limit rt in_bytes l.memory_mb)
      × (lookup "max_file_size_bytes" d ≡ scaled_limit rt in_bytes l.max_file_size_mb)
      × (lookup "max_processes" d ≡ scaled_limit rt same_unit l.max_processes)
      × (lookup "max_open_files" d ≡ scaled_limit rt same_unit l.max_open_files)
unfolding limits_json entry lookup str_dec
lookup-limits_json rt l made =
    (ground arith, ground arith, ground arith, ground arith, ground arith)
