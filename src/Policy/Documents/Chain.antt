-- ===== src/Policy/Documents/Chain.antt =====
-- On `from_dict` of asphallea/policy.py: the steps of its sections and the calls of a builder that they stand for.
use asphallea.Prelude.{
  refl, List, String, [], map, ◌≡◌, ◌∷◌, ◌++◌, ◌<>◌, ap, some, sym, ◌∙◌, str_dec, Bool, arith,
  Option, false, none, true, if◌then◌else◌, not, keep, Option-cases,
}
use asphallea.Policy.Documents.Values.{
  or_no_items, or_empty, hashable, hashable_items, as_names, get, item_under, entries_of,
  or_empty_dict, reject_keys, reject_unknown, is_known,
}
use asphallea.Policy.Documents.Schema.{
  ArgsAre, CallsAre, CapIs, DefaultIs, KeysIn, Listed, Named, Rate, RateIs, Rows, Tabled, TimeoutIs,
  cap_call, declare_call, max_call, rate_call, text_items, timeout_methods,
}
use asphallea.Policy.Documents.Sections.{
  each, each_entry, cap_of, default_text, rate_arguments, declare_tool, set_calls, set_cap,
  set_rate, set_default, set_timeout, args_keys, rate_keys, spend_keys,
}
use asphallea.Policy.Builder.{Builder, Method, apply, chain, rate_of}
use asphallea.Runtime.{to_int, to_float, Runtime, iterate, str_of, find, truthy, dict_keys}
use asphallea.Prelude.Int.{ℤ, ◌*ℤ◌}
use asphallea.Value.{end, field, Value, items, Fields, cons, nil}
use asphallea.Errors.{>>=-ap, >>=_assoc, Result, ok, ◌>>=◌, raise}
use asphallea.Prelude.Dict.{Dict}
use asphallea.Policy.{ToolArgs}

or_empty-null : or_empty Value.null ≡ Value.dict end
unfolding truthy
or_empty-null = refl

or_empty-dict : (fs : Fields) → or_empty (Value.dict fs) ≡ Value.dict fs
unfolding truthy
or_empty-dict end = refl
or_empty-dict (field k v fs) = refl

>>=-ok_right : {A : Type 0} (m : Result A) → (m >>= ok) ≡ m
>>=-ok_right (ok b) = refl
>>=-ok_right (raise x) = refl

module _ (rt : Runtime) where
  chain-append :
      (ms ns : List Method) (b : Builder) → chain rt (ms ++ ns) b ≡ (chain rt ms b >>= chain rt ns)
  unfolding chain
  chain-append [] ns b = refl
  chain-append (m ∷ ms) ns b =
      >>=-ap (apply rt m b) (chain-append ms ns)
      ∙ sym (>>=_assoc (apply rt m b) (chain rt ms) (chain rt ns))

  pub chain-one : (m : Method) (b : Builder) → apply rt m b ≡ chain rt (m ∷ []) b
  unfolding chain
  chain-one m b = sym (>>=-ok_right (apply rt m b))

  -- One step after another.
  pub then-chain :
      (ms ns : List Method) (b : Builder) (first : Result Builder) (next : Builder → Result Builder)
      → first ≡ chain rt ms b
      → ((b' : Builder) → next b' ≡ chain rt ns b')
      → (first >>= next) ≡ chain rt (ms ++ ns) b
  then-chain ms ns b first next e alike =
      ap (λ m. m >>= next) e ∙ >>=-ap (chain rt ms b) alike ∙ sym (chain-append ms ns b)

  pub each-chain :
      (step : Value → Builder → Result Builder) (method : String → Method)
      → ((s : String) (b : Builder) → step (Value.str s) b ≡ apply rt (method s) b)
      → (ss : List String) (b : Builder)
      → each step (items (text_items ss)) b ≡ chain rt (map method ss) b
  unfolding chain each
  each-chain step method same [] b = refl
  each-chain step method same (s ∷ ss) b =
      rw (same s b) (>>=-ap (apply rt (method s) b) (each-chain step method same ss))

  -- A table whose rows each stand for a call.
  pub each_entry-chain :
      {V : Type 0} (step : Value → Value → Builder → Result Builder) (D : Value → V → Type 0)
      (method : String × V → Method)
      → ((k : String) (v : Value) (x : V) (b : Builder)
          → D v x
          → step (Value.str k) v b ≡ apply rt (method (k, x)) b)
      → (fs : Fields) (d : Dict V) (b : Builder) → Rows D fs d
      → each_entry step fs b ≡ chain rt (map method d) b
  unfolding chain each_entry
  each_entry-chain step D method same end [] b h = refl
  each_entry-chain step D method same (field (Value.str k) v fs) ((j, x) ∷ d) b (e, said, rest) =
      rw (same k v x b said) (
        rw e (
          >>=-ap (apply rt (method (j, x)) b)
            λ b'. each_entry-chain step D method same fs d b' rest))
  each_entry-chain step D method same fs d b h = absurd h

  str_of-texts : (ss : List String) → map (str_of rt) (items (text_items ss)) ≡ ss
  str_of-texts [] = refl
  str_of-texts (s ∷ ss) = ap (◌∷◌ s) (str_of-texts ss)

  Named-as_names : (o : Option Value) (ss : List String) → Named o ss → as_names rt o ≡ ok ss
  unfolding as_names iterate
  Named-as_names none ss h = ap ok (sym h)
  Named-as_names (some Value.null) ss h = ap ok (sym h)
  Named-as_names (some (Value.str s)) ss h = ap ok (sym h)
  Named-as_names (some (Value.list vs)) ss h = rw h (ap ok (str_of-texts ss))
  Named-as_names o ss h = absurd h

  -- Known keys are not rejected.
  unknown-none :
      (known : List String) (fs : Fields)
      → KeysIn known fs
      → keep (λ k. not (is_known known k)) (items (dict_keys fs)) ≡ []
  unknown-none known end h = refl
  unknown-none known (field k v fs) (is_one, rest) = rw is_one (unknown-none known fs rest)

  KeysIn-hashable :
      (known : List String) (fs : Fields) → KeysIn known fs → hashable_items (dict_keys fs) ≡ true
  unfolding hashable
  KeysIn-hashable known end h = refl
  KeysIn-hashable known (field (Value.str k) v fs) (is_one, rest) = KeysIn-hashable known fs rest
  KeysIn-hashable known (field k v fs) (is_one, rest) = cc

  pub KeysIn-reject_keys :
      (known : List String) (fs : Fields) (message : String)
      → KeysIn known fs
      → reject_keys rt (dict_keys fs) known message ≡ ok tt
  unfolding reject_keys
  KeysIn-reject_keys known fs message h = rw (unknown-none known fs h) refl

  pub KeysIn-reject_unknown :
      (known : List String) (fs : Fields) (place : String)
      → KeysIn known fs
      → reject_unknown rt (Value.dict fs) known place ≡ ok tt
  unfolding reject_unknown iterate
  KeysIn-reject_unknown known fs place h =
      rw (KeysIn-hashable known fs h) (KeysIn-reject_keys known fs _ h)

  declare_fields :
      (tool : String) (v : Value) (fs : Fields) (a : ToolArgs) (b : Builder)
      → or_empty v ≡ Value.dict fs
      → ArgsAre (Value.dict fs) a
      → declare_tool rt (Value.str tool) v b ≡ apply rt (declare_call (tool, a)) b
  unfolding declare_tool get
  declare_fields tool v fs a b e (known, reads, writes, network) =
      rw
        (
          e,
          KeysIn-reject_unknown args_keys fs ("tools.args." <> tool) known,
          Named-as_names (find "reads" fs) a.reads reads,
          Named-as_names (find "writes" fs) a.writes writes,
          Named-as_names (find "network" fs) a.network network,
        )
        refl

  pub declare_tool-call :
      (tool : String) (v : Value) (a : ToolArgs) (b : Builder)
      → ArgsAre v a
      → declare_tool rt (Value.str tool) v b ≡ apply rt (declare_call (tool, a)) b
  declare_tool-call tool Value.null a b h = declare_fields tool Value.null end a b or_empty-null h
  declare_tool-call tool (Value.dict fs) a b h =
      declare_fields tool (Value.dict fs) fs a b (or_empty-dict fs) h
  declare_tool-call tool v a b h = absurd h

  pub set_calls-call :
      (tool : String) (v : Value) (n : ℤ) (b : Builder)
      → CallsAre v n
      → set_calls rt (Value.str tool) v b ≡ apply rt (max_call (tool, n)) b
  unfolding set_calls to_int
  set_calls-call tool v n b h = rw h refl

  rate_fields :
      (tool : String) (v : Value) (fs : Fields) (r : Rate) (b : Builder)
      → or_empty v ≡ Value.dict fs
      → RateIs (Value.dict fs) r
      → set_rate rt (Value.str tool) v b ≡ apply rt (rate_call (tool, r)) b
  unfolding set_rate get rate_arguments to_int apply rate_of
  rate_fields tool v fs r b e (known, minute, second) =
      rw (e, KeysIn-reject_unknown rate_keys fs ("limits.rate." <> tool) known, minute, second)
        (ground (arith, Option-cases r.per_minute, Option-cases r.per_second))

  pub set_rate-call :
      (tool : String) (v : Value) (r : Rate) (b : Builder)
      → RateIs v r
      → set_rate rt (Value.str tool) v b ≡ apply rt (rate_call (tool, r)) b
  set_rate-call tool Value.null r b h = rate_fields tool Value.null end r b or_empty-null h
  set_rate-call tool (Value.dict fs) r b h =
      rate_fields tool (Value.dict fs) fs r b (or_empty-dict fs) h
  set_rate-call tool v r b h = absurd h

  cap_fields :
      (tool : String) (v : Value) (fs : Fields) (n : ℤ) (b : Builder)
      → or_empty v ≡ Value.dict fs
      → CapIs (Value.dict fs) n
      → set_cap rt (Value.str tool) v b ≡ apply rt (cap_call (tool, n)) b
  unfolding set_cap cap_of item_under to_int
  cap_fields tool v fs n b e (known, has) =
      rw (e, KeysIn-reject_unknown spend_keys fs ("spend." <> tool) known, has) refl

  pub set_cap-call :
      (tool : String) (v : Value) (n : ℤ) (b : Builder)
      → CapIs v n
      → set_cap rt (Value.str tool) v b ≡ apply rt (cap_call (tool, n)) b
  set_cap-call tool Value.null n b h = cap_fields tool Value.null end n b or_empty-null h
  set_cap-call tool (Value.dict fs) n b h =
      cap_fields tool (Value.dict fs) fs n b (or_empty-dict fs) h
  set_cap-call tool v n b h = absurd h

  pub set_timeout-chain :
      (o : Option Value) (t : Option ℤ) (b : Builder)
      → TimeoutIs o t
      → set_timeout rt o b ≡ chain rt (timeout_methods t) b
  unfolding set_timeout to_float chain
  set_timeout-chain none none b h = refl
  set_timeout-chain (some (Value.int n)) (some t) b h =
      rw h (chain-one (Method.timeout (n *ℤ 1000000000)) b)
  set_timeout-chain (some (Value.float x)) (some t) b h = rw h (chain-one (Method.timeout x) b)
  set_timeout-chain o t b h = absurd h

  pub set_default-call :
      (o : Option Value) (permitted : Bool) (b : Builder)
      → DefaultIs o permitted
      → set_default rt (default_text rt o) b
        ≡ apply rt (if permitted then Method.allow_network else Method.deny_network) b
  unfolding set_default str_dec
  set_default-call none permitted b h = rw h refl
  set_default-call (some (Value.str s)) true b h = rw h refl
  set_default-call (some (Value.str s)) false b h = rw h refl
  set_default-call o permitted b h = absurd h

pub or_no_items-Listed :
    (o : Option Value) (ss : List String) → Listed o ss → or_no_items o ≡ ok (text_items ss)
unfolding iterate truthy
or_no_items-Listed none ss h = rw h refl
or_no_items-Listed (some Value.null) ss h = rw h refl
or_no_items-Listed (some (Value.list nil)) ss h = ap ok h
or_no_items-Listed (some (Value.list (cons v vs))) ss h = ap ok h
or_no_items-Listed o ss h = absurd h

-- The entries of a table under a key.
abbrev pub entries : Option Value → Fields
entries (some (Value.dict fs)) = fs
entries o = end

pub entries_of-Tabled :
    {V : Type 0} (D : Value → V → Type 0) (o : Option Value) (d : Dict V)
    → Tabled D o d
    → (entries_of (or_empty_dict o) ≡ ok (entries o)) × Rows D (entries o) d
unfolding entries_of truthy
entries_of-Tabled D none d h = (refl, h)
entries_of-Tabled D (some Value.null) d h = (refl, h)
entries_of-Tabled D (some (Value.dict end)) d h = (refl, h)
entries_of-Tabled D (some (Value.dict (field k v fs))) d h = (refl, h)
entries_of-Tabled D o d h = absurd h
