-- ===== src/Policy/Hosts/Matches.antt =====
-- On `host_matches` of asphallea/policy.py: which hosts a rule matches.
use text.Mathlib.TextLemmas.{nil-append, cons-append}
use asphallea.Prelude.{
  sym, ap, Bool-cases, String, arith, false, inl, inr, refl, true, ◌==◌, ◌<>◌, ◌≡◌, ◌∙◌, ◌↔◌, ◌⊎◌,
}
use asphallea.Policy.Hosts.{ends_with, host_matches}

-- `s.endswith(t)`: some text in front of `t` makes `s`.
ends_with_sound : (s t : String) → ends_with s t ≡ true → (front : String) × (s ≡ front <> t)
unfolding ends_with
ends_with_sound String.[] t h = ("", ground (arith, nil-append t))
ends_with_sound (String.◌∷◌ c s) t h = elim (Bool-cases (String.◌∷◌ c s == t)) [
  | inl same ↦ ("", ground (arith, nil-append t))
  | inr differs ↦
      let (front, e) = ends_with_sound s t (ground arith) in
      (String.◌∷◌ c front, ap (λ r. String.◌∷◌ c r) e ∙ sym (cons-append c front t))
]

ends_with-suffix : (s t : String) → s ≡ t → ends_with s t ≡ true
unfolding ends_with
ends_with-suffix String.[] t h = ground arith
ends_with-suffix (String.◌∷◌ c s) t h = ground arith

ends_with_complete : (front t : String) → ends_with (front <> t) t ≡ true
unfolding ends_with
ends_with_complete String.[] t = rw (nil-append t) (ends_with-suffix t t refl)
ends_with_complete (String.◌∷◌ c front) t =
    rw (cons-append c front t) (ground (arith, ends_with_complete front t))

-- A rule matches a host just if neither is empty and the host is the rule or, in front of a dot, a name
-- under it.
pub host_matches_iff :
    (target rule : String)
    → (host_matches target rule ≡ true) ↔ (
        ((target == "") ≡ false)
        × ((rule == "") ≡ false)
        × ((target ≡ rule) ⊎ ((front : String) × (target ≡ front <> ("." <> rule)))))
unfolding host_matches
host_matches_iff target rule = (
  λ h. elim (Bool-cases (target == rule)) [
    | inl same ↦ (ground arith, ground arith, inl (ground arith))
    | inr differs ↦
        (ground arith, ground arith, inr (ends_with_sound target ("." <> rule) (ground arith)))
  ],
  λ (named, ruled, either). elim either [
    | inl same ↦ ground arith
    | inr (front, e) ↦ ground (arith, ends_with_complete front ("." <> rule))
  ],
)
