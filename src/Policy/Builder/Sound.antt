-- ===== src/Policy/Builder/Sound.antt =====
-- On `PolicyBuilder` of asphallea/policy.py: the limits of the policies that it makes.

use asphallea.Prelude.{
  Bool, List, Option, String, [], arith, inl, inr, none, not, refl, some, true, ◌==◌, ◌≡◌, ◌&&◌,
  ◌||◌, ◌∷◌, ==_refl, false, ◌⊎◌,
}
use asphallea.Policy.Builder.{
  chain, build, apply, Builder, Method, allow_all, allow_tool, make_rate_limit, rate_of, from_keys,
  make_policy, new_builder, normalize_all, policy_of,
}
use asphallea.Prelude.Dict.{Dict, insert}
use asphallea.Policy.{RateLimit, Policy}
use asphallea.Errors.{Result-cases, ok}
use asphallea.Runtime.{Runtime}
use asphallea.Prelude.Int.{leb_ℤ, pos, ℤ}

abbrev non_negative : ℤ → Bool
non_negative n = leb_ℤ (pos 0) n

abbrev positive : ℤ → Bool
positive n = not (leb_ℤ n (pos 0))

abbrev pub all_values {ℓ} : {V : Type ℓ} → (V → Bool) → Dict V → Bool
all_values test [] = true
all_values test ((k, v) ∷ d) = test v && all_values test d

abbrev positive_rate : RateLimit → Bool
positive_rate rl = positive rl.max_calls && positive rl.window_seconds

abbrev positive_timeout : Option ℤ → Bool
positive_timeout none = true
positive_timeout (some t) = positive t

all_values-insert {ℓ} :
    {V : Type ℓ} (test : V → Bool) (k : String) (v : V) (d : Dict V)
    → test v ≡ true
    → all_values test d ≡ true
    → all_values test (insert k v d) ≡ true
unfolding insert
all_values-insert test k v [] hv h = ground arith
all_values-insert test k v ((k', v') ∷ d) hv h = ground (arith, all_values-insert test k v d hv)

-- The limits that the methods of a builder accept.
abbrev pub limits_hold : Builder → Bool
limits_hold b =
    ((b.network == "deny") || (b.network == "allow"))
    && all_values non_negative b.max_calls
    && all_values non_negative b.spend_caps
    && all_values positive_rate b.rate_limits
    && positive_timeout b.timeout_seconds

allow_all-limits_hold :
    (tools : List String) (b : Builder) → limits_hold (allow_all tools b) ≡ limits_hold b
unfolding allow_all
allow_all-limits_hold [] b = refl
allow_all-limits_hold (tool ∷ tools) b = allow_all-limits_hold tools (allow_tool tool b)

rate_of_positive :
    (per_minute per_second : Option ℤ) {rl : RateLimit}
    → rate_of per_minute per_second ≡ ok rl
    → positive_rate rl ≡ true
unfolding rate_of make_rate_limit
rate_of_positive per_minute per_second h = ground arith

pub apply-limits_hold :
    (rt : Runtime) (m : Method) (b : Builder) {b' : Builder}
    → apply rt m b ≡ ok b'
    → limits_hold b ≡ true
    → limits_hold b' ≡ true
unfolding apply
apply-limits_hold rt (Method.allow_tools tools) b done h =
    ground (arith, allow_all-limits_hold tools b)
apply-limits_hold rt (Method.max_calls tool n) b done h =
    ground (arith, all_values-insert non_negative tool n b.max_calls)
apply-limits_hold rt (Method.spend_cap tool n) b done h =
    ground (arith, all_values-insert non_negative tool n b.spend_caps)
apply-limits_hold rt (Method.rate_limit tool per_minute per_second) b done h =
    elim (Result-cases (rate_of per_minute per_second)) [
      | inl (rl, made) ↦ ground (
        arith,
        rate_of_positive per_minute per_second made,
        all_values-insert positive_rate tool rl b.rate_limits,
      )
      | inr (x, failed) ↦ absurd (ground arith)
    ]
apply-limits_hold rt m b done h = ground (arith, ==_refl "deny", ==_refl "allow")

chain-limits_hold :
    (rt : Runtime) (ms : List Method) (b : Builder) {b' : Builder}
    → chain rt ms b ≡ ok b'
    → limits_hold b ≡ true
    → limits_hold b' ≡ true
unfolding chain
chain-limits_hold rt [] b {b'} done h = ground arith
chain-limits_hold rt (m ∷ ms) b {b'} done h = elim (Result-cases (apply rt m b)) [
  | inl (b1, made) ↦
      chain-limits_hold rt ms b1 {b' = b'} (ground arith) (apply-limits_hold rt m b made h)
  | inr (x, failed) ↦ absurd (ground arith)
]

-- The limits of a policy are ones that can be met, and its default for the network is known.
pub record IsSound (p : Policy) : Type 0 where
  pub named : (p.name == "") ≡ false
  pub network : (p.network ≡ "deny") ⊎ (p.network ≡ "allow")
  pub max_calls : all_values non_negative p.max_calls ≡ true
  pub spend_caps : all_values non_negative p.spend_caps ≡ true
  pub rate_limits : all_values positive_rate p.rate_limits ≡ true
  pub timeout_seconds : positive_timeout p.timeout_seconds ≡ true

-- What `build` returns has the builder's own limits.
pub build-policy_of :
    (rt : Runtime) (b : Builder) {p : Policy}
    → build rt b ≡ ok p
    → (reads : List String) × (writes : List String) × (p ≡ policy_of b reads (from_keys writes))
      × ((p.name == "") ≡ false)
unfolding build make_policy
build-policy_of rt b {p} made = elim (Result-cases (normalize_all rt b.read_paths)) [
  | inr (x, failed) ↦ absurd (ground arith)
  | inl (reads, ok_reads) ↦ elim (Result-cases (normalize_all rt b.write_paths)) [
    | inr (x, failed) ↦ absurd (ground arith)
    | inl (writes, ok_writes) ↦ (from_keys reads, writes, ground arith, ground arith)
  ]
]

-- What a builder whose limits hold makes.
pub built-IsSound :
    (rt : Runtime) (b : Builder) {p : Policy} → build rt b ≡ ok p → limits_hold b ≡ true → IsSound p
built-IsSound rt b {p} made h =
    let (reads, writes, same, named) = build-policy_of rt b made in
    record {
      named = named;
      network = ground arith;
      max_calls = ground arith;
      spend_caps = ground arith;
      rate_limits = ground arith;
      timeout_seconds = ground arith;
    }

pub limits_hold_new : (name : String) → limits_hold (new_builder name) ≡ true
limits_hold_new name = ground (arith, ==_refl "deny")

-- Any chain of method calls on a new builder, if none raises and the policy is built: it has a name, a
-- known default for the network, no negative cap on calls or spend, and only positive rate limits and
-- timeouts.
build-IsSound :
    (rt : Runtime) (name : String) (ms : List Method) {b : Builder} {p : Policy}
    → chain rt ms (new_builder name) ≡ ok b
    → build rt b ≡ ok p
    → IsSound p
build-IsSound rt name ms {b} {p} done made =
    built-IsSound rt b made
      (chain-limits_hold rt ms (new_builder name) {b' = b} done (limits_hold_new name))
