-- ===== src/Policy/Hosts.antt =====
-- `network_host` and `host_matches` of asphallea/policy.py.
pub mod Matches
use Prim.Native.Char.{Char, code}
use Prim.Native.Nat.{compare, Ordering}
use Prim.Native.String.{char_at}
use asphallea.Prelude.{
  ℕ, ◌-◌, String, ◌<>◌, Bool, true, false, ◌&&◌, ◌||◌, Option, none, some, leb, ltb, ◌==◌,
  if◌then◌else◌,
}
use asphallea.Runtime.{Runtime, str_of}
use asphallea.Value.{Value}
use asphallea.Errors.{Result, ok, ◌>>=◌}

-- Whether a character has the code.
abbrev pub is_code : ℕ → Char → Bool
is_code n c = elim (compare (code c) n) [ Ordering.eq ↦ true | _ ↦ false ]

-- `chr(n) in s`
unfoldable pub has_code : ℕ → String → Bool
has_code n String.[] = false
has_code n (String.◌∷◌ c s) = is_code n c || has_code n s

-- `s.split(chr(n), 1)[0]`
unfoldable pub split_first : ℕ → String → String
split_first n String.[] = String.[]
split_first n (String.◌∷◌ c s) =
    let rest = split_first n s in if is_code n c then String.[] else String.◌∷◌ c rest

-- `s.rsplit(chr(n), 1)[-1]`
unfoldable pub rsplit_last : ℕ → String → String
unfolding has_code
rsplit_last n String.[] = String.[]
rsplit_last n (String.◌∷◌ c s) =
    let rest = rsplit_last n s in
    if has_code n s then rest else if is_code n c then s else String.◌∷◌ c s

-- Whether `c` and the text behind it begin with `://`.
unfoldable pub begins_scheme : Char → String → Bool
begins_scheme a (String.◌∷◌ b (String.◌∷◌ c s)) = is_code b':' a && is_code b'/' b && is_code b'/' c
begins_scheme a _ = false

-- `"://" in s`
unfoldable pub has_scheme : String → Bool
unfolding begins_scheme
has_scheme String.[] = false
has_scheme (String.◌∷◌ c s) = begins_scheme c s || has_scheme s

-- `str.isspace` of a character: below 128 these are 9 to 13 and 28 to 32.
unfoldable pub is_space : Runtime → Char → Bool
is_space rt c =
    let n = code c in
    if ltb n 128 then (leb 9 n && leb n 13) || (leb 28 n && leb n 32) else rt.is_space_wide c

unfoldable pub strip_left : Runtime → String → String
unfolding is_space
strip_left rt String.[] = String.[]
strip_left rt (String.◌∷◌ c s) = if is_space rt c then strip_left rt s else String.◌∷◌ c s

unfoldable pub strip_right : Runtime → String → String
unfolding is_space
strip_right rt String.[] = String.[]
strip_right rt (String.◌∷◌ c s) =
    let rest = strip_right rt s in
    if is_space rt c && (rest == "") then String.[] else String.◌∷◌ c rest

-- `s.strip()`
unfoldable pub strip : Runtime → String → String
unfolding strip_left strip_right
strip rt s = strip_left rt (strip_right rt s)

-- `s.isascii()`
unfoldable pub is_ascii : String → Bool
is_ascii String.[] = true
is_ascii (String.◌∷◌ c s) = ltb (code c) 128 && is_ascii s

-- Below 128 `lower` moves `A` to `Z`.
unfoldable pub lower_char : Char → Char
lower_char c =
    let n = code c in
    if leb b'A' n && leb n b'Z' then char_at "abcdefghijklmnopqrstuvwxyz" (n - b'A') else c

unfoldable pub lower_ascii : String → String
unfolding lower_char
lower_ascii String.[] = String.[]
lower_ascii (String.◌∷◌ c s) = String.◌∷◌ (lower_char c) (lower_ascii s)

-- `s.lower()`. Beyond ASCII a letter may depend on its neighbours, so the text is lowered as a whole.
unfoldable pub lower : Runtime → String → String
unfolding is_ascii lower_ascii
lower rt s = if is_ascii s then lower_ascii s else rt.lower_wide s

-- `host or ""`
abbrev or_empty : Option String → String
or_empty none = ""
or_empty (some h) = h

-- `network_host(text)` of a text
unfoldable pub host_of : Runtime → String → Result String
unfolding strip has_scheme split_first rsplit_last lower
host_of rt value =
    let text = strip rt value in
    if has_scheme text
    then (do host ← rt.url_hostname text; ok (lower rt (or_empty host)))
    else ok (lower rt (split_first b':' (rsplit_last b'@' (split_first b'/' text))))

-- `network_host(value)`
unfoldable pub network_host : Runtime → Value → Result String
unfolding host_of
network_host rt Value.null = ok ""
network_host rt v = host_of rt (str_of rt v)

-- `s.endswith(t)`
unfoldable pub ends_with : String → String → Bool
ends_with String.[] t = String.[] == t
ends_with (String.◌∷◌ c s) t = (String.◌∷◌ c s == t) || ends_with s t

-- `host_matches(target, rule)`
unfoldable pub host_matches : String → String → Bool
unfolding ends_with
host_matches target rule =
    if (target == "") || (rule == "")
    then false
    else (target == rule) || ends_with target ("." <> rule)
