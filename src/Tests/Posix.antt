-- ===== src/Tests/Posix.antt =====
-- Paths of POSIX with their components, and policies whose prefixes are such paths.
use asphallea.Prelude.{
  ◌≡◌, ◌≢◌, ◌↔◌, ◌⊎◌, inl, inr, refl, Bool, true, false, not, ◌&&◌, String, ◌<>◌, ◌==◌, str_dec,
  List, [], ◌∷◌, is_empty, arith, Bool-cases, if◌then◌else◌,
}
use asphallea.Runtime.{Runtime}
use asphallea.Value.{Value}
use asphallea.Prelude.{none, some}
use asphallea.Prelude.Int.{pos}
use asphallea.Prelude.Dict.{lookup, insert}
use asphallea.Audit.{AuditSink}
use asphallea.Policy.Queries.{args_for, tool_allowed}
use asphallea.Intercept.{
  Interceptor, Keywords, one_name, no_keywords, new_interceptor, decide, recorded, record_decision,
  write_to, record_of, call_of, values_for, as_tuple, texts_of,
}
use asphallea.Intercept.Placed.{decide-LiesWithin}
use asphallea.Engine.{
  check, check_access, check_tool, check_reads, check_writes, check_network, first_refused,
  targets_of, check_budget, check_calls, check_rate, check_spend, commit,
}
use asphallea.Errors.{Exception, Result, ok, raise, value_error}
use asphallea.Policy.{Policy}
use asphallea.Policy.Hosts.{is_code}
use asphallea.Policy.Builder.{
  Builder, policy_of, new_builder, build, make_policy, normalize_all, add_all, add,
}
use asphallea.Policy.Builder.Boundary.{LiesWithin, build-LiesWithin}
use asphallea.Engine.{within_any, under_any, under_prefix}
use asphallea.Engine.Boundary.{PathLaws, shared}
use asphallea.Tests.Data.{runtime}

-- The text up to the first slash, and the texts between the others.
abbrev pieces : String → String × List String
pieces String.[] = ("", [])
pieces (String.◌∷◌ c s) =
    let r = pieces s in if is_code b'/' c then ("", r.0 ∷ r.1) else (String.◌∷◌ c r.0, r.1)

-- The root, and what the slashes behind it separate.
unfoldable pub parts : String → List String
parts String.[] = []
parts (String.◌∷◌ c String.[]) = "/" ∷ []
parts (String.◌∷◌ c s) = let r = pieces s in "/" ∷ r.0 ∷ r.1

abbrev glue : String → List String → String
glue x [] = x
glue x (y ∷ ys) = x <> "/" <> glue y ys

unfoldable pub join : List String → String
join [] = ""
join (root ∷ []) = "/"
join (root ∷ x ∷ xs) = "/" <> glue x xs

abbrev same_texts : List String → List String → Bool
same_texts [] [] = true
same_texts (x ∷ xs) (y ∷ ys) = (x == y) && same_texts xs ys
same_texts _ _ = false

same_texts_sound : (xs ys : List String) → same_texts xs ys ≡ true → xs ≡ ys
same_texts_sound [] [] h = refl
same_texts_sound [] (y ∷ ys) h = absurd (ground arith)
same_texts_sound (x ∷ xs) [] h = absurd (ground arith)
same_texts_sound (x ∷ xs) (y ∷ ys) h = ground (arith, same_texts_sound xs ys)

-- Whether a test holds of every list with which `xs` begins.
abbrev all_fronts : (List String → Bool) → List String → Bool
all_fronts test [] = test []
all_fronts test (x ∷ xs) = test [] && all_fronts (λ front. test (x ∷ front)) xs

all_fronts_self :
    (test : List String → Bool) (xs : List String) → all_fronts test xs ≡ true → test xs ≡ true
all_fronts_self test [] h = h
all_fronts_self test (x ∷ xs) h = all_fronts_self (λ front. test (x ∷ front)) xs (ground arith)

all_fronts-shared :
    (test : List String → Bool) (xs ys : List String)
    → all_fronts test xs ≡ true
    → all_fronts test (shared xs ys) ≡ true
unfolding shared
all_fronts-shared test [] ys h = h
all_fronts-shared test (x ∷ xs) [] h = ground arith
all_fronts-shared test (x ∷ xs) (y ∷ ys) h =
    ground (arith, all_fronts-shared (λ front. test (x ∷ front)) xs ys)

-- Whether the parts are those of the path that they make.
unfoldable pub round_trips : List String → Bool
round_trips front = same_texts (parts (join front)) front

unfoldable pub canonical : String → Bool
canonical a = not (is_empty (parts a)) && (join (parts a) == a) && all_fronts round_trips (parts a)

-- `/w/link` is a link to a file elsewhere, and nothing but canonical paths is resolved.
unfoldable pub resolve : String → Result String
resolve path =
    if path == "/w/link"
    then ok "/etc/passwd"
    else if canonical path
    then ok path
    else raise (value_error "unresolved")

unfoldable pub common_of : String → String → Result String
common_of a b =
    let front = shared (parts a) (parts b) in
    if is_empty front then raise (value_error "no common path") else ok (join front)

abbrev pub posix : Runtime
posix = record runtime { real_path = resolve; commonpath = common_of }

is_empty_sound : (xs : List String) → is_empty xs ≡ true → xs ≡ []
is_empty_sound [] h = refl
is_empty_sound (x ∷ xs) h = absurd (ground arith)

round_trips_sound :
    (front : List String) → all_fronts round_trips front ≡ true → parts (join front) ≡ front
unfolding round_trips
round_trips_sound front fronts = same_texts_sound _ _ (all_fronts_self round_trips front fronts)

pub posix_common :
    (a b : String)
    → canonical a ≡ true
    → ((common : String) × (common_of a b ≡ ok common)
        × (canonical common ≡ true)
        × (parts common ≡ shared (parts a) (parts b)))
      ⊎ ((x : Exception) × (common_of a b ≡ raise x) × (shared (parts a) (parts b) ≡ []))
unfolding canonical common_of
posix_common a b h =
    let front = shared (parts a) (parts b) in
    let fronts : all_fronts round_trips front ≡ true =
      all_fronts-shared round_trips (parts a) (parts b) (ground arith) in
    let same : parts (join front) ≡ front = round_trips_sound front fronts in
    elim (Bool-cases (is_empty front)) [
      | inl none_ ↦ inr (value_error "no common path", ground arith, is_empty_sound front none_)
      | inr some_ ↦ inl (join front, ground arith, ground (arith, same, fronts), same)
    ]

link_canonical : canonical "/etc/passwd" ≡ true
unfolding canonical parts join round_trips str_dec
link_canonical = refl

pub posix_root : (a : String) → canonical a ≡ true → parts a ≢ []
unfolding canonical
posix_root a h none_ = ground arith

pub parts-injective :
    (a b : String) → canonical a ≡ true → canonical b ≡ true → parts a ≡ parts b → a ≡ b
unfolding canonical
parts-injective a b can can' same = ground arith

pub resolve-canonical : (path real : String) → resolve path ≡ ok real → canonical real ≡ true
unfolding resolve
resolve-canonical path real h = ground (arith, link_canonical)

unfoldable pub posix_laws : PathLaws posix
posix_laws = record {
  components = parts;
  is_canonical = canonical;
  components_root = posix_root;
  components-injective = parts-injective;
  real_path-canonical = resolve-canonical;
  commonpath-shared = λ a b can can'. posix_common a b can;
}

-- A sink that keeps nothing.
abbrev silent : AuditSink
silent = record { State = Unit {0}; write = λ r s. ok s }

-- A builder with a place to write, and one to read.
abbrev places : Builder
places = record (new_builder "agent") { read_paths = "/r" ∷ []; write_paths = "/w/out" ∷ [] }

abbrev placed : Policy
placed = policy_of places ("/r" ∷ []) ("/w/out" ∷ [])

-- A file under the place, one in a folder whose name begins like it, and a link that leads elsewhere.
places_test :
    (within_any posix placed.write_paths "/w/out/a" ≡ ok true)
    × (within_any posix placed.write_paths "/w/outer/a" ≡ ok false)
    × (within_any posix placed.write_paths "/w/link" ≡ ok false)
unfolding within_any under_any under_prefix resolve canonical parts join round_trips common_of
    shared str_dec add_all add
places_test = (refl, refl, refl)

build-LiesWithin_example :
    ((within_any posix placed.write_paths "/w/out/a" ≡ ok true)
      ↔ LiesWithin posix posix_laws ("/w/out" ∷ []) "/w/out/a")
    × ((within_any posix placed.read_paths "/w/out/a" ≡ ok true)
        ↔ LiesWithin posix posix_laws ("/r" ∷ "/w/out" ∷ []) "/w/out/a")
unfolding build make_policy normalize_all resolve canonical parts join round_trips str_dec add_all
    add
build-LiesWithin_example = build-LiesWithin posix posix_laws places "/w/out/a" {p = placed} refl

abbrev placing : Keywords
placing = record no_keywords { writes = one_name "path" }

abbrev placed_gate : Interceptor silent
placed_gate = new_interceptor silent placed none

decide-LiesWithin_example : LiesWithin posix posix_laws ("/w/out" ∷ []) "/w/out/a"
unfolding build make_policy normalize_all add_all add resolve canonical parts join round_trips
    common_of shared decide recorded record_decision write_to record_of call_of values_for as_tuple
    texts_of args_for check check_access check_tool check_reads check_writes check_network
    first_refused within_any under_any under_prefix tool_allowed targets_of check_budget check_calls
    check_rate check_spend commit lookup insert str_dec
decide-LiesWithin_example =
    decide-LiesWithin silent posix posix_laws places "save"
      (some (("path", Value.str "/w/out/a") ∷ [])) placing
      (record { clock = pos 1; timestamp = "t" }) placed_gate {p = placed} refl refl refl refl
      "path" "/w/out/a" (Value.str "/w/out/a") refl (inl refl) (inl refl)
