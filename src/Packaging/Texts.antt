-- ===== src/Packaging/Texts.antt =====
-- The operations on texts that hatch_build.py and scripts/verify_wheel.py use.
use Prim.Native.Char.{Char, code}
use Prim.Native.String.{char_at}
use asphallea.Prelude.{
  Bool, List, String, [], false, true, if◌then◌else◌, ◌==◌, ◌&&◌, ◌||◌, ◌<>◌, ◌∷◌, ℕ,
}
use asphallea.Policy.Hosts.{is_code}

-- `s.startswith(t)`
unfoldable pub starts_with : String → String → Bool
starts_with s String.[] = true
starts_with String.[] (String.◌∷◌ d t) = false
starts_with (String.◌∷◌ c s) (String.◌∷◌ d t) = is_code (code d) c && starts_with s t

-- `t in s`
unfoldable pub contains_text : String → String → Bool
unfolding starts_with
contains_text String.[] t = String.[] == t
contains_text (String.◌∷◌ c s) t = starts_with (String.◌∷◌ c s) t || contains_text s t

abbrev underscore : Char → String → String
underscore c s =
    if is_code b'-' c || is_code b'.' c then String.◌∷◌ (char_at "_" 0) s else String.◌∷◌ c s

-- `s.replace("-", "_").replace(".", "_")`
unfoldable pub underscored : String → String
underscored String.[] = String.[]
underscored (String.◌∷◌ c s) = underscore c (underscored s)

-- `s.split(chr(n), 1)[1]`, for a text with the character in it
unfoldable pub after_first : ℕ → String → String
after_first n String.[] = String.[]
after_first n (String.◌∷◌ c s) = let rest = after_first n s in if is_code n c then s else rest

-- `separator.join(texts)`
unfoldable pub join : String → List String → String
join separator [] = ""
join separator (s ∷ []) = s
join separator (s ∷ t ∷ rest) = s <> separator <> join separator (t ∷ rest)
