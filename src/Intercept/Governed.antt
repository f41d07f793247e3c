-- ===== src/Intercept/Governed.antt =====
-- On `decide` of asphallea/intercept.py: the arguments that a policy governs.
use mathlib.Core.Path.{subst}
use asphallea.Prelude.{
  Bool, In, List, String, [], all, arith, inl, inr, some, true, ◌≡◌, ◌∷◌, ◌++◌, Option-cases, ap,
  map, Option, false, is_empty, refl, sym, In-append_left, In-append_right,
}
use asphallea.Intercept.{
  or_no_arguments, recorded, call_of, decide, Interceptor, Moment, Keywords, values_for, texts_of,
  as_tuple,
}
use asphallea.Engine.Rules.{admitted, access_verdicts, all_hold, passes}
use asphallea.Engine.{within_any, targets_of, Call}
use asphallea.Audit.{AuditSink}
use asphallea.Prelude.Dict.{Dict, lookup}
use asphallea.Errors.{Result, ok}
use asphallea.Runtime.{Runtime}
use asphallea.Value.{Value}
use asphallea.Policy.{Policy}
use asphallea.Engine.Run.{admitted-all_hold}
use asphallea.Policy.Queries.{args_for, network_allowed, tool_allowed}
use asphallea.Intercept.Record.{engine_answer}

In-all : {A : Type 0} (p : A → Bool) (a : A) (xs : List A) → In a xs → all p xs ≡ true → p a ≡ true
In-all p a [] h t = absurd h
In-all p a (x ∷ xs) (inl e) t = ground arith
In-all p a (x ∷ xs) (inr h) t = In-all p a xs h (ground arith)

In-map-some : {A : Type 0} (a : A) (xs : List A) → In a xs → In (some a) (map some xs)
In-map-some a [] h = h
In-map-some a (x ∷ xs) (inl e) = inl (ap some e)
In-map-some a (x ∷ xs) (inr h) = inr (In-map-some a xs h)

passes-ok : {r : Result Bool} → passes r ≡ true → r ≡ ok true
passes-ok {r} h = ground arith

-- Every text of a named argument is among the values that are checked.
In-values_for :
    (rt : Runtime) (arguments : Dict Value) (names : List String) (name text : String) (v : Value)
    → In name names
    → lookup name arguments ≡ some v
    → In text (texts_of rt v)
    → In text (values_for rt arguments names)
unfolding values_for
In-values_for rt arguments [] name text v named has member = absurd named
In-values_for rt arguments (n ∷ names) name text v (inl e) has member =
    rw (← e, has, values_for)
      (In-append_left text (texts_of rt v) (values_for rt arguments names) member)
In-values_for rt arguments (n ∷ names) name text v (inr h) has member =
    elim (Option-cases (lookup n arguments)) [
      | inl missing ↦
          rw (missing, values_for) (In-values_for rt arguments names name text v h has member)
      | inr (w, found) ↦
          rw (found, values_for)
            (In-append_right text (texts_of rt w) (values_for rt arguments names)
              (In-values_for rt arguments names name text v h has member))
    ]

-- Every text of every argument that the policy or the caller names is where the policy permits.
pub record Governs (rt : Runtime) (p : Policy) (tool : String) (arguments : Dict Value)
    (kw : Keywords) : Type 0 where
  pub tool_permitted : tool_allowed p tool ≡ true
  pub reads :
      (name text : String) (v : Value)
      → In name ((args_for p tool).reads ++ as_tuple kw.reads)
      → lookup name arguments ≡ some v
      → In text (texts_of rt v)
      → within_any rt p.read_paths text ≡ ok true
  pub writes :
      (name text : String) (v : Value)
      → In name ((args_for p tool).writes ++ as_tuple kw.writes)
      → lookup name arguments ≡ some v
      → In text (texts_of rt v)
      → within_any rt p.write_paths text ≡ ok true
  pub network :
      (name text : String) (v : Value)
      → In name (args_for p tool).network
      → lookup name arguments ≡ some v
      → In text (texts_of rt v)
      → network_allowed rt p (some text) ≡ ok true

not_empty : {A : Type 0} (a : A) (xs : List A) → In a xs → is_empty xs ≡ false
not_empty a [] h = absurd h
not_empty a (x ∷ xs) h = refl

In-targets_of :
    (c : Call) (text : String) → In text c.network_targets → In (some text) (targets_of c)
unfolding targets_of
In-targets_of c text h =
    ground (arith, In-map-some text c.network_targets h, not_empty text c.network_targets h)

module _ (rt : Runtime) (c : Call) (p : Policy) (h : all_hold (access_verdicts rt c p) ≡ true) where
  pub read_within : (text : String) → In text c.reads → within_any rt p.read_paths text ≡ ok true
  read_within text member =
      passes-ok (
        In-all (λ path. passes (within_any rt p.read_paths path)) text c.reads member
          (ground arith))

  pub write_within : (text : String) → In text c.writes → within_any rt p.write_paths text ≡ ok true
  write_within text member = passes-ok (
      In-all (λ path. passes (within_any rt p.write_paths path)) text c.writes member
        (ground arith))

  target_allowed :
      (text : String) → In text c.network_targets → network_allowed rt p (some text) ≡ ok true
  target_allowed text member = passes-ok (
      In-all (λ target. passes (network_allowed rt p target)) (some text) (targets_of c)
        (In-targets_of c text member) (ground arith))

module _ (S : AuditSink) (rt : Runtime) (tool : String) (arguments : Option (Dict Value))
    (kw : Keywords) (now : Moment) (gate : Interceptor S) where
  decide-engine :
      admitted (decide S rt tool arguments kw now gate).0 ≡ true
      → admitted (engine_answer S rt tool arguments kw now gate).0 ≡ true
  unfolding decide recorded
  decide-engine h = ground arith

  decide-access :
      admitted (decide S rt tool arguments kw now gate).0 ≡ true
      → all_hold (
          access_verdicts rt
            (call_of rt gate.policy tool (or_no_arguments arguments) kw)
            gate.engine.policy)
        ≡ true
  decide-access h = ground (
    arith,
    admitted-all_hold rt (call_of rt gate.policy tool (or_no_arguments arguments) kw) now.clock
        gate.engine,
    decide-engine h,
  )

  -- If `decide` allows, the policy permits the tool, and every text of every argument that the policy
  -- declares for the tool, or that the caller names, lies within the read prefixes, within the write
  -- prefixes or passes the host rules, as declared; for a list, each of its entries.
  pub decide-Governs :
      gate.policy ≡ gate.engine.policy
      → admitted (decide S rt tool arguments kw now gate).0 ≡ true
      → Governs rt gate.policy tool (or_no_arguments arguments) kw
  unfolding call_of
  decide-Governs own h =
      let args = or_no_arguments arguments in
      let c = call_of rt gate.policy tool args kw in
      let holds =
        subst (λ p. all_hold (access_verdicts rt c p) ≡ true) (sym own) (decide-access h) in
      record {
        tool_permitted = ground arith;
        reads = λ name text v named has member.
            read_within rt c gate.policy holds text
              (In-values_for rt args _ name text v named has member);
        writes = λ name text v named has member.
            write_within rt c gate.policy holds text
              (In-values_for rt args _ name text v named has member);
        network = λ name text v named has member.
            target_allowed rt c gate.policy holds text
              (In-values_for rt args _ name text v named has member);
      }
