-- ===== src/Runtime.antt =====
-- What the interpreter, the operating system and the file system answer: printing of values that are
-- no texts, `os.path` (POSIX or Windows), and `urllib.parse`. Each is a parameter of the model.
use Prim.Native.Char.{Char}
use Prim.Native.Nat.{◌/◌}
use asphallea.Prelude.{
  List, String, Bool, Option, false, not, true, zero, ◌==◌, ◌+◌, none, some, if◌then◌else◌,
}
use asphallea.Prelude.Int.{ℤ, negsuc, pos, sub_ℕ, ◌*ℤ◌}
use asphallea.Value.{Value, end, nil, Fields, Items, cons, field}
use asphallea.Errors.{Result, ok, raise, type_error}

pub record Runtime : Type 0 where
  -- `str(v)` of a value that is no text, and `repr(v)`
  pub str_of : Value → String
  pub repr : Value → String
  -- `f"{sorted(set(keys))}"`, which raises for keys that cannot be ordered
  pub sorted_repr : List Value → Result String
  -- `f"{x:g}"`
  pub format_g : ℤ → String
  -- `os.path.realpath(os.path.abspath(os.path.expanduser(path)))`: it reads the home directory, the
  -- working directory and the links on disk, and raises on a path with a null byte.
  pub real_path : String → Result String
  pub normcase : String → String
  -- `os.path.commonpath([a, b])`, which raises `ValueError` for paths that cannot be compared
  pub commonpath : String → String → Result String
  -- `urlsplit(text).hostname`, which is `None` or raises `ValueError` for a malformed URL
  pub url_hostname : String → Result (Option String)
  -- `str.lower` of a text that is not ASCII, and the Unicode table for `str.strip`
  pub lower_wide : String → String
  pub is_space_wide : Char → Bool
  -- `int(s)` and `float(s)` of a text
  pub parse_int : String → Result ℤ
  pub parse_float : String → Result ℤ

-- `str(v)`; of a text it is the text.
abbrev pub str_of : Runtime → Value → String
str_of rt (Value.str s) = s
str_of rt v = rt.str_of v

-- `bool(v)`
unfoldable pub truthy : Value → Bool
truthy Value.null = false
truthy (Value.bool b) = b
truthy (Value.int (pos zero)) = false
truthy (Value.int _) = true
truthy (Value.float (pos zero)) = false
truthy (Value.float _) = true
truthy (Value.str s) = not (s == "")
truthy (Value.list nil) = false
truthy (Value.tuple nil) = false
truthy (Value.set nil) = false
truthy (Value.dict end) = false
truthy _ = true

-- A float, cut towards zero.
abbrev truncated : ℤ → ℤ
truncated (pos n) = pos (n / 1000000000)
truncated (negsuc n) = sub_ℕ 0 ((n + 1) / 1000000000)

-- `int(v)`
unfoldable pub to_int : Runtime → Value → Result ℤ
to_int rt (Value.int n) = ok n
to_int rt (Value.bool true) = ok (pos 1)
to_int rt (Value.bool false) = ok (pos 0)
to_int rt (Value.float x) = ok (truncated x)
to_int rt (Value.str s) = rt.parse_int s
to_int rt _ =
    raise (type_error "int() argument must be a string, a bytes-like object or a real number")

-- `float(v)`, in units of 10⁻⁹
unfoldable pub to_float : Runtime → Value → Result ℤ
to_float rt (Value.int n) = ok (n *ℤ 1000000000)
to_float rt (Value.bool true) = ok (pos 1000000000)
to_float rt (Value.bool false) = ok (pos 0)
to_float rt (Value.float x) = ok x
to_float rt (Value.str s) = rt.parse_float s
to_float rt _ = raise (type_error "float() argument must be a string or a real number")

-- The characters of a text, each as a text.
abbrev pub characters : String → Items
characters String.[] = nil
characters (String.◌∷◌ c s) = cons (Value.str (String.◌∷◌ c String.[])) (characters s)

abbrev pub dict_keys : Fields → Items
dict_keys end = nil
dict_keys (field k v fs) = cons k (dict_keys fs)

-- `for v in value`
unfoldable pub iterate : Value → Result Items
iterate (Value.list vs) = ok vs
iterate (Value.tuple vs) = ok vs
iterate (Value.set vs) = ok vs
iterate (Value.dict fs) = ok (dict_keys fs)
iterate (Value.str s) = ok (characters s)
iterate _ = raise (type_error "object is not iterable")

-- Whether a value is the text.
abbrev pub is_key : String → Value → Bool
is_key key (Value.str s) = s == key
is_key key v = false

-- `d.get(key)` of a dict
unfoldable pub find : String → Fields → Option Value
find key end = none
find key (field k v fs) = let rest = find key fs in if is_key key k then some v else rest
