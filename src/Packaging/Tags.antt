-- ===== src/Packaging/Tags.antt =====
-- On hatch_build.py and scripts/verify_wheel.py: which of the hook's tags the check of a wheel takes.
use Prim.Native.Char.{Char}
use text.Mathlib.TextLemmas.{append_assoc, nil-append, cons-append}
use Prim.Native.String.{char_at}
use asphallea.Prelude.{
  str_dec, none, ◌⊎◌, inl, inr, Bool-cases, ap, ◌∙◌, ◌↔◌, ◌==◌, ◌||◌, ℕ, String, arith, false, refl,
  ◌≡◌, ◌<>◌, true, Bool,
}
use asphallea.Packaging.{computed_tag, linux_tags, platform_tag}
use asphallea.Packaging.Texts.{starts_with, underscored}
use asphallea.Packaging.Wheel.{check_tag, platform_of}
use asphallea.Packaging.Released.{is_uploadable}
use asphallea.Errors.{ok}
use asphallea.Prelude.Dict.{get_or, lookup}
use asphallea.Policy.Hosts.{is_code, has_code, rsplit_last}

-- No dash is left.
has_code-underscored : (s : String) → has_code b'-' (underscored s) ≡ false
unfolding underscored has_code
has_code-underscored String.[] = refl
has_code-underscored (String.◌∷◌ c s) = ground (arith, has_code-underscored s)

has_code-append : (n : ℕ) (front s : String) → has_code n s ≡ true → has_code n (front <> s) ≡ true
unfolding has_code
has_code-append n String.[] s h = rw (nil-append s) h
has_code-append n (String.◌∷◌ c front) s h =
    rw (cons-append c front s) (ground (arith, has_code-append n front s h))

-- What stands behind the last separator.
rsplit_last-behind :
    (n : ℕ) (front : String) (c : Char) (s : String)
    → is_code n c ≡ true
    → has_code n s ≡ false
    → rsplit_last n (front <> String.◌∷◌ c s) ≡ s
unfolding rsplit_last has_code
rsplit_last-behind n String.[] c s is h = rw (nil-append (String.◌∷◌ c s)) (ground arith)
rsplit_last-behind n (String.◌∷◌ d front) c s is h =
    rw (cons-append d front (String.◌∷◌ c s)) (
      ground (arith, rsplit_last-behind n front c s is h, has_code-append n front (String.◌∷◌ c s)))

dash-append : (s : String) → "py3-none-" <> s ≡ "py3-none" <> String.◌∷◌ (char_at "-" 0) s
dash-append s =
    append_assoc "py3-none" "-" s
    ∙ ap (λ r. "py3-none" <> r)
        (cons-append (char_at "-" 0) "" s ∙ ap (λ r. String.◌∷◌ (char_at "-" 0) r) (nil-append s))

platform_of-tag : (s : String) → has_code b'-' s ≡ false → platform_of ("py3-none-" <> s) ≡ s
platform_of-tag s h =
    rw (dash-append s) (rsplit_last-behind b'-' "py3-none" (char_at "-" 0) s refl h)

-- The platforms of Linux that have a tag of their own.
abbrev pub is_mapped : String → Bool
is_mapped plat = (plat == "linux_x86_64") || (plat == "linux_aarch64")

-- What the table gives, and whether it gives anything.
linux_tags-cases :
    (plat : String)
    → ((is_mapped plat ≡ true) × (get_or plat linux_tags plat ≡ "manylinux_2_17_x86_64"))
      ⊎ ((is_mapped plat ≡ true) × (get_or plat linux_tags plat ≡ "manylinux_2_17_aarch64"))
      ⊎ ((is_mapped plat ≡ false) × (get_or plat linux_tags plat ≡ plat))
unfolding lookup
linux_tags-cases plat = elim (Bool-cases (plat == "linux_x86_64")) [
  | inl x86 ↦ inl (ground arith, ground arith)
  | inr other ↦ elim (Bool-cases (plat == "linux_aarch64")) [
    | inl arm ↦ inr (inl (ground arith, ground arith))
    | inr third ↦ inr (inr (ground arith, ground arith))
  ]
]

check_tag_iff :
    (name tag : String) → (check_tag name tag ≡ ok tt) ↔ (is_uploadable (platform_of tag) ≡ true)
unfolding check_tag
check_tag_iff name tag = ground arith

uploadable-linux_tags :
    (plat : String)
    → has_code b'-' plat ≡ false
    → is_uploadable (platform_of ("py3-none-" <> get_or plat linux_tags plat))
      ≡ (is_mapped plat || is_uploadable plat)
unfolding starts_with has_code str_dec rsplit_last
uploadable-linux_tags plat h = elim (linux_tags-cases plat) [
  | inl (mapped, tag) ↦ rw (tag, mapped) refl
  | inr (inl (mapped, tag)) ↦ rw (tag, mapped) refl
  | inr (inr (mapped, tag)) ↦ rw (tag, mapped, platform_of-tag plat h) refl
]

-- Without an override, the tag that the build hook gives to a wheel passes the check of tags just if the
-- platform, with its dashes and dots replaced, is one of the two of Linux that have a manylinux tag, or is
-- neither "any" nor begins with "linux_".
platform_tag-check_tag :
    (name platform : String)
    → (check_tag name (platform_tag none platform) ≡ ok tt)
      ↔ ((is_mapped (underscored platform) || is_uploadable (underscored platform)) ≡ true)
unfolding platform_tag computed_tag
platform_tag-check_tag name platform =
    rw (← uploadable-linux_tags (underscored platform) (has_code-underscored platform))
      (check_tag_iff name (platform_tag none platform))
