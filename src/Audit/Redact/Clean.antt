-- ===== src/Audit/Redact/Clean.antt =====
-- On `default_redactor` of asphallea/audit.py: what it leaves of a record that `to_dict` made.
use asphallea.Prelude.{
  ◌≡◌, refl, String, true, false, Bool-cases, some, arith, ◌==◌, inl, inr, str_dec, if◌then◌else◌,
}
use asphallea.Prelude.Dict.{Dict, lookup, insert, get_or, lookup-insert}
use asphallea.Runtime.{Runtime, str_of, iterate}
use asphallea.Value.{Value, Items, nil, cons, Fields, end, field}
use asphallea.Errors.{ok}
use asphallea.Audit.{AuditRecord}
use asphallea.Audit.Patterns.{secret_key, looks_secret}
use asphallea.Audit.Json.{to_dict, json_safe, json_safe_items, json_safe_fields, of_list, of_dict}
use asphallea.Audit.Json.Safe.{IsSafe, AreSafe, HoldsSafe, json_safe-IsSafe}
use asphallea.Audit.Redact.{redacted, redact_value, redact_items, redact_fields, default_redactor}

-- No text in the value but a key, at any depth, looks like a credential, and under a key that sounds like one
-- stands the mark. No tuple, set or object hides anything.
abbrev mutual
  pub IsClean : Runtime → Value → Type 0
  IsClean rt (Value.str s) = looks_secret s ≡ false
  IsClean rt (Value.list vs) = AreClean rt vs
  IsClean rt (Value.dict fs) = HoldsClean rt fs
  IsClean rt (Value.tuple vs) = ⊥
  IsClean rt (Value.set vs) = ⊥
  IsClean rt (Value.object n) = ⊥
  IsClean rt _ = Unit

  pub AreClean : Runtime → Items → Type 0
  AreClean rt nil = Unit
  AreClean rt (cons v vs) = IsClean rt v × AreClean rt vs

  pub HoldsClean : Runtime → Fields → Type 0
  HoldsClean rt end = Unit
  HoldsClean rt (field k v fs) =
      (secret_key (str_of rt k) ≡ true → v ≡ Value.str redacted) × IsClean rt v × HoldsClean rt fs

mark_clean : looks_secret redacted ≡ false
unfolding looks_secret str_dec
mark_clean = refl

clean_entry :
    (rt : Runtime) (k v : Value) (fs : Fields)
    → IsClean rt v
    → HoldsClean rt fs
    → HoldsClean rt (field k (if secret_key (str_of rt k) then Value.str redacted else v) fs)
clean_entry rt k v fs h hs = elim (Bool-cases (secret_key (str_of rt k))) [
  | inl named ↦ rw named (λ _. refl, mark_clean, hs)
  | inr other ↦ rw other (λ same. cc, h, hs)
]

mutual
  unfolding redact_value

  clean : (rt : Runtime) (v : Value) → IsSafe v → IsClean rt (redact_value rt v)
  clean rt (Value.str s) h = ground (arith, mark_clean)
  clean rt (Value.dict fs) h = clean_fields rt fs h
  clean rt (Value.list vs) h = clean_items rt vs h
  clean rt Value.null h = tt
  clean rt (Value.bool b) h = tt
  clean rt (Value.int n) h = tt
  clean rt (Value.float x) h = tt
  clean rt (Value.tuple vs) h = h
  clean rt (Value.set vs) h = h
  clean rt (Value.object n) h = h

  clean_items : (rt : Runtime) (vs : Items) → AreSafe vs → AreClean rt (redact_items rt vs)
  clean_items rt nil h = tt
  clean_items rt (cons v vs) (h, hs) = (clean rt v h, clean_items rt vs hs)

  clean_fields : (rt : Runtime) (fs : Fields) → HoldsSafe fs → HoldsClean rt (redact_fields rt fs)
  clean_fields rt end h = tt
  clean_fields rt (field k v fs) (text, h, hs) =
      clean_entry rt k (redact_value rt v) (redact_fields rt fs) (clean rt v h)
        (clean_fields rt fs hs)

-- The redactor runs on every record, and what it returns is clean where the secrets of a call may be:
-- its `args` and its `kwargs`. All other entries of the record are as they were.
pub record IsScrubbed (rt : Runtime) (before after : Dict Value) : Type 0 where
  pub args : IsClean rt (get_or "args" after Value.null)
  pub kwargs : IsClean rt (get_or "kwargs" after Value.null)
  pub others :
      (k : String)
      → (k == "args") ≡ false
      → (k == "kwargs") ≡ false
      → lookup k after ≡ lookup k before

-- What the redactor makes of a record with these two entries.
abbrev pub scrubbed : Runtime → Items → Fields → Dict Value → Dict Value
scrubbed rt args kwargs d =
    insert "kwargs" (Value.dict (redact_fields rt kwargs))
      (insert "args" (Value.list (redact_items rt args)) d)

kwargs-ne-args : ("kwargs" == "args") ≡ false
unfolding str_dec
kwargs-ne-args = refl

default_redactor_lem :
    (rt : Runtime) (d : Dict Value) {args : Items} {kwargs : Fields}
    → lookup "args" d ≡ some (Value.list args)
    → lookup "kwargs" d ≡ some (Value.dict kwargs)
    → default_redactor rt d ≡ ok (scrubbed rt args kwargs d)
unfolding default_redactor iterate
default_redactor_lem rt d {args} {kwargs} ha hk =
    ground
      (arith, kwargs-ne-args, lookup-insert "kwargs" "args" (Value.list (redact_items rt args)) d)

module _ (rt : Runtime) (d : Dict Value) (args : Items) (kwargs : Fields) where
  kwargs-scrubbed :
      lookup "kwargs" (scrubbed rt args kwargs d) ≡ some (Value.dict (redact_fields rt kwargs))
  kwargs-scrubbed = ground (
    arith,
    lookup-insert "kwargs" "kwargs" (Value.dict (redact_fields rt kwargs))
        (insert "args" (Value.list (redact_items rt args)) d),
  )

  args-scrubbed :
      lookup "args" (scrubbed rt args kwargs d) ≡ some (Value.list (redact_items rt args))
  args-scrubbed = ground (
    arith,
    kwargs-ne-args,
    lookup-insert "args" "kwargs" (Value.dict (redact_fields rt kwargs))
        (insert "args" (Value.list (redact_items rt args)) d),
    lookup-insert "args" "args" (Value.list (redact_items rt args)) d,
  )

scrubbed-IsScrubbed :
    (rt : Runtime) (d : Dict Value) (args : Items) (kwargs : Fields)
    → AreSafe args
    → HoldsSafe kwargs
    → IsScrubbed rt d (scrubbed rt args kwargs d)
scrubbed-IsScrubbed rt d args kwargs ha hk =
    let inner = insert "args" (Value.list (redact_items rt args)) d in
    record {
      args = rw (args-scrubbed rt d args kwargs) (clean_items rt args ha);
      kwargs = rw (kwargs-scrubbed rt d args kwargs) (clean_fields rt kwargs hk);
      others = λ k a w. ground (
        arith,
        lookup-insert k "kwargs" (Value.dict (redact_fields rt kwargs)) inner,
        lookup-insert k "args" (Value.list (redact_items rt args)) d,
      );
    }

module _ (rt : Runtime) (r : AuditRecord) where
  args-to_dict :
      lookup "args" (to_dict rt r) ≡ some (Value.list (json_safe_items rt (of_list r.args)))
  unfolding to_dict lookup str_dec
  args-to_dict = refl

  kwargs-to_dict :
      lookup "kwargs" (to_dict rt r)
      ≡ some (Value.dict (json_safe_fields rt (of_dict r.kwargs) end))
  unfolding to_dict lookup str_dec
  kwargs-to_dict = refl

-- The default redactor succeeds on every record that `to_dict` makes. In what it returns, no text at any
-- depth of `args` and `kwargs`, but for the keys of a dict, looks like a credential as it stands there, so after
-- `to_dict` has cut it at 512 characters; whatever stands under a key of `kwargs` that
-- sounds like one, at any depth, is the mark, and the other entries are as they were.
pub redact-to_dict :
    (rt : Runtime) (r : AuditRecord)
    → (d : Dict Value) × (default_redactor rt (to_dict rt r) ≡ ok d)
      × IsScrubbed rt (to_dict rt r) d
redact-to_dict rt r =
    let args = json_safe_items rt (of_list r.args) in
    let kwargs = json_safe_fields rt (of_dict r.kwargs) end in
    (
      scrubbed rt args kwargs (to_dict rt r),
      default_redactor_lem rt (to_dict rt r) (args-to_dict rt r) (kwargs-to_dict rt r),
      scrubbed-IsScrubbed rt (to_dict rt r) args kwargs
          (unfold json_safe in json_safe-IsSafe rt (Value.list (of_list r.args)))
          (unfold json_safe in json_safe-IsSafe rt (Value.dict (of_dict r.kwargs))),
    )
