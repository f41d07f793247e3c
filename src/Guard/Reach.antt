-- ===== src/Guard/Reach.antt =====
-- On the wrapper of asphallea/guard.py: the calls that run the function.
use mathlib.Core.List.{append-nil}
use mathlib.Core.Path.{subst}
use asphallea.Prelude.{
  Bool-cases, In, In-append_left, In-append_right, [], List, String, get_elem?, inl, inr,
  Option-cases, refl, some, sym, true, ◌≡◌, ◌∷◌,
}
use asphallea.Guard.{
  Function, Guarded, Spec, arguments_of, bind_call, by_index, by_name, evaluate, guarded,
  guarded_denied, keywords_of, resolve,
}
use asphallea.Intercept.{Interceptor, Moment, as_tuple, no_keywords, texts_of}
use asphallea.Intercept.Governed.{Governs, decide-Governs}
use asphallea.Engine.{within_any}
use asphallea.Engine.Rules.{admitted}
use asphallea.Audit.{AuditSink}
use asphallea.Policy.{Policy}
use asphallea.Policy.Queries.{args_for}
use asphallea.Errors.{ok}
use asphallea.Runtime.{Runtime}
use asphallea.Value.{Value}
use asphallea.Prelude.Dict.{Dict, lookup}
use asphallea.Prelude.Int.{negsuc, pos}

-- The name that an entry of `reads` or `writes` stands for, among the parameters.
abbrev pub Picks : List String → Spec → String → Type 0
Picks params (by_name own) name = own ≡ name
Picks params (by_index (pos i)) name = get_elem? params i ≡ some name
Picks params (by_index (negsuc i)) name = ⊥

In-resolve :
    (params : List String) (specs : List Spec) (entry : Spec) (name : String)
    → In entry specs
    → Picks params entry name
    → In name (resolve params specs)
unfolding resolve
In-resolve params [] entry name member picks = absurd member
In-resolve params (by_name own ∷ specs) entry name (inl same) picks =
    inl (sym (subst (λ e. Picks params e name) same picks))
In-resolve params (by_name own ∷ specs) entry name (inr member) picks =
    inr (In-resolve params specs entry name member picks)
In-resolve params (by_index (pos i) ∷ specs) entry name (inl same) picks =
    let picked : get_elem? params i ≡ some name = subst (λ e. Picks params e name) same picks in
    rw (picked, resolve) (inl refl)
In-resolve params (by_index (pos i) ∷ specs) entry name (inr member) picks =
    let rest = In-resolve params specs entry name member picks in
    elim (Option-cases (get_elem? params i)) [
      | inl missing ↦ rw (missing, resolve) rest
      | inr (other, found) ↦ rw (found, resolve) (inr rest)
    ]
In-resolve params (by_index (negsuc i) ∷ specs) entry name (inl same) picks =
    absurd (subst (λ e. Picks params e name) same picks)
In-resolve params (by_index (negsuc i) ∷ specs) entry name (inr member) picks =
    In-resolve params specs entry name member picks

module _ (S : AuditSink) (rt : Runtime) (fn : Function) (spec : Guarded) (args : List Value)
    (kwargs : Dict Value) (p : Policy) where
  -- Every text of what an entry of the guard picks lies within the prefixes.
  abbrev pub PicksWithin : List Spec → List String → Type 0
  PicksWithin specs prefixes =
      (entry : Spec) (name : String) (v : Value) (text : String)
      → In entry specs
      → Picks (bind_call rt fn args kwargs).0 entry name
      → lookup name (bind_call rt fn args kwargs).1 ≡ some v
      → In text (texts_of rt v)
      → within_any rt prefixes text ≡ ok true

  -- The policy permits the call: by the arguments that it declares for the tool, and by those that the guard
  -- names or picks by their position.
  pub record GovernsCall : Type 0 where
    pub declared : Governs rt p spec.tool (bind_call rt fn args kwargs).1 no_keywords
    pub reads : PicksWithin spec.read_spec p.read_paths
    pub writes : PicksWithin spec.write_spec p.write_paths

  Governs-GovernsCall :
      Governs rt p spec.tool
        (arguments_of S rt fn spec args kwargs)
        (keywords_of S rt fn spec args kwargs)
      → GovernsCall
  unfolding as_tuple
  Governs-GovernsCall g =
      let params = (bind_call rt fn args kwargs).0 in
      let of_tool = args_for p spec.tool in
      record {
        declared = record {
          tool_permitted = g.tool_permitted;
          reads = λ name text v named. g.reads name text v (
              In-append_left name of_tool.reads _
                (subst (In name) (append-nil of_tool.reads) named));
          writes = λ name text v named. g.writes name text v (
              In-append_left name of_tool.writes _
                (subst (In name) (append-nil of_tool.writes) named));
          network = g.network;
        };
        reads = λ entry name v text member picks. g.reads name text v (
            In-append_right name of_tool.reads (resolve params spec.read_spec)
              (In-resolve params spec.read_spec entry name member picks));
        writes = λ entry name v text member picks. g.writes name text v (
            In-append_right name of_tool.writes (resolve params spec.write_spec)
              (In-resolve params spec.write_spec entry name member picks));
      }

-- If a call of a guarded function changes its state, the policy permits the tool; every text of every argument
-- that the policy declares for it lies within the read prefixes, within the write prefixes or passes the host
-- rules, as declared; and every text of every argument that the guard names, or picks by its position among the
-- parameters, lies within the read or the write prefixes, as the guard says. For a list, that is each of its
-- entries. The arguments are those of the bound call, by the names of the parameters: what `**kwargs` collects
-- stands in it under the one name of that parameter, and its entries are not looked up.
pub guarded-GovernsCall :
    (S : AuditSink) (rt : Runtime) (fn : Function) (spec : Guarded) (args : List Value)
    (kwargs : Dict Value) (now later : Moment) (gate : Interceptor S) (s : fn.State)
    → gate.policy ≡ gate.engine.policy
    → ((guarded S rt fn spec args kwargs now later gate s).2 ≡ s → ⊥)
    → GovernsCall S rt fn spec args kwargs gate.policy
guarded-GovernsCall S rt fn spec args kwargs now later gate s own changed =
    elim (Bool-cases (admitted (evaluate S rt fn spec args kwargs now gate).0)) [
      | inl allowed ↦ Governs-GovernsCall S rt fn spec args kwargs gate.policy (
          decide-Governs S rt spec.tool (some (arguments_of S rt fn spec args kwargs))
            (keywords_of S rt fn spec args kwargs) now gate own allowed)
      | inr refused ↦
          absurd (changed (guarded_denied S rt fn spec args kwargs now later gate s refused).2)
    ]
