-- ===== src/Policy/Builder/Boundary.antt =====
-- On `PolicyBuilder.build` of asphallea/policy.py and `_within_any` of asphallea/engine.py: which paths lie
-- within the prefixes that a builder was given.
use asphallea.Prelude.{
  ◌≡◌, ◌↔◌, inl, inr, Bool-cases, String, true, ◌||◌, List, [], ◌∷◌, ◌++◌, contains, arith, ◌==◌,
}
use asphallea.Runtime.{Runtime}
use asphallea.Errors.{Result-cases, ok}
use asphallea.Policy.{Policy}
use asphallea.Policy.Builder.{Builder, build, make_policy, normalize_all, from_keys}
use asphallea.Policy.Builder.Paths.{contains-add_all, contains-append, under_any-contains}
use asphallea.Engine.{under_any, under_prefix, within_any}
use asphallea.Engine.Boundary.{PathLaws, lies_under, under_prefix-lies_under}

-- The resolved paths are those of the given ones.
normalize_all_sound :
    (rt : Runtime) (paths : List String) {reals : List String} (real : String)
    → normalize_all rt paths ≡ ok reals
    → contains reals real ≡ true
    → (path : String) × (contains paths path ≡ true) × (rt.real_path path ≡ ok real)
unfolding normalize_all
normalize_all_sound rt [] real made here = absurd (ground arith)
normalize_all_sound rt (path ∷ paths) real made here = elim (Result-cases (rt.real_path path)) [
  | inr (x, failed) ↦ absurd (ground arith)
  | inl (r, resolved) ↦ elim (Result-cases (normalize_all rt paths)) [
    | inr (x, failed) ↦ absurd (ground arith)
    | inl (rs, rest) ↦ elim (Bool-cases (real == r)) [
      | inl same ↦ (path, ground arith, ground arith)
      | inr differs ↦
          let (p, among, is_real) = normalize_all_sound rt paths real rest (ground arith) in
          (p, ground arith, is_real)
    ]
  ]
]

normalize_all_complete :
    (rt : Runtime) (paths : List String) {reals : List String} (path real : String)
    → normalize_all rt paths ≡ ok reals
    → contains paths path ≡ true
    → rt.real_path path ≡ ok real
    → contains reals real ≡ true
unfolding normalize_all
normalize_all_complete rt [] path real made here resolved = absurd (ground arith)
normalize_all_complete rt (p ∷ paths) path real made here resolved =
    elim (Result-cases (rt.real_path p)) [
      | inr (x, failed) ↦ absurd (ground arith)
      | inl (r, one) ↦ elim (Result-cases (normalize_all rt paths)) [
        | inr (x, failed) ↦ absurd (ground arith)
        | inl (rs, rest) ↦ ground (arith, normalize_all_complete rt paths path real rest)
      ]
    ]

-- The prefixes of what `build` returns are the resolved paths.
build-prefixes :
    (rt : Runtime) (b : Builder) {p : Policy}
    → build rt b ≡ ok p
    → (reads : List String) × (writes : List String) × (normalize_all rt b.read_paths ≡ ok reads)
      × (normalize_all rt b.write_paths ≡ ok writes)
      × (p.read_paths ≡ from_keys (from_keys reads ++ from_keys writes))
      × (p.write_paths ≡ from_keys writes)
unfolding build make_policy
build-prefixes rt b {p} made = elim (Result-cases (normalize_all rt b.read_paths)) [
  | inr (x, failed) ↦ absurd (ground arith)
  | inl (reads, ok_reads) ↦ elim (Result-cases (normalize_all rt b.write_paths)) [
    | inr (x, failed) ↦ absurd (ground arith)
    | inl (writes, ok_writes) ↦ (reads, writes, ok_reads, ok_writes, ground arith, ground arith)
  ]
]

-- What is among the prefixes of `build`.
contains-read_prefixes :
    (reads writes : List String) (prefix : String)
    → contains (from_keys (from_keys reads ++ from_keys writes)) prefix
      ≡ contains reads prefix || contains writes prefix
contains-read_prefixes reads writes prefix = ground (
  arith,
  contains-add_all [] (from_keys reads ++ from_keys writes) prefix,
  contains-append (from_keys reads) (from_keys writes) prefix,
  contains-add_all [] reads prefix,
  contains-add_all [] writes prefix,
)

-- The paths of two lists.
resolved_either :
    (rt : Runtime) (read write : List String) {reads writes : List String} (prefix : String)
    → normalize_all rt read ≡ ok reads
    → normalize_all rt write ≡ ok writes
    → (contains reads prefix || contains writes prefix) ≡ true
    → (place : String) × (contains (read ++ write) place ≡ true) × (rt.real_path place ≡ ok prefix)
resolved_either rt read write {reads} {writes} prefix ok_reads ok_writes h =
    elim (Bool-cases (contains reads prefix)) [
      | inl among ↦
          let (place, given, is_real) = normalize_all_sound rt read prefix ok_reads among in
          (place, ground (arith, contains-append read write place), is_real)
      | inr away ↦
          let (place, given, is_real) =
            normalize_all_sound rt write prefix ok_writes (ground arith) in
          (place, ground (arith, contains-append read write place), is_real)
    ]

under_any_sound :
    (rt : Runtime) (real : String) (prefixes : List String)
    → under_any rt real prefixes ≡ true
    → (prefix : String) × (contains prefixes prefix ≡ true) × (under_prefix rt real prefix ≡ true)
unfolding under_any
under_any_sound rt real [] h = absurd (ground arith)
under_any_sound rt real (p ∷ prefixes) h = elim (Bool-cases (under_prefix rt real p)) [
  | inl here ↦ (p, ground arith, here)
  | inr away ↦
      let (prefix, among, under) = under_any_sound rt real prefixes (ground arith) in
      (prefix, ground arith, under)
]

module _ (rt : Runtime) (laws : PathLaws rt) where
  -- The real location of the path lies at or under the real location of one of the places, component by
  -- component.
  abbrev pub LiesWithin : List String → String → Type 0
  LiesWithin places path =
      (real : String) × (place : String) × (prefix : String) × (rt.real_path path ≡ ok real)
      × (contains places place ≡ true)
      × (rt.real_path place ≡ ok prefix)
      × (lies_under rt laws (rt.normcase real) prefix ≡ true)

  within_any-LiesWithin :
      (places prefixes : List String) (path : String)
      → ((prefix : String)
          → contains prefixes prefix ≡ true
          → (place : String) × (contains places place ≡ true) × (rt.real_path place ≡ ok prefix))
      → ((place prefix : String)
          → contains places place ≡ true
          → rt.real_path place ≡ ok prefix
          → contains prefixes prefix ≡ true)
      → (within_any rt prefixes path ≡ ok true) ↔ LiesWithin places path
  unfolding within_any
  within_any-LiesWithin places prefixes path sound complete = (
    λ h. elim (Result-cases (rt.real_path path)) [
      | inr (x, failed) ↦ absurd (ground arith)
      | inl (real, resolved) ↦
          let (prefix, among, under) =
            under_any_sound rt (rt.normcase real) prefixes (ground arith) in
          let (place, given, is_real) = sound prefix among in
          (
            real,
            place,
            prefix,
            resolved,
            given,
            is_real,
            (under_prefix-lies_under rt laws (rt.normcase real) prefix
                  (laws.real_path-canonical path real resolved)
                  (laws.real_path-canonical place prefix is_real)).0
                under,
          )
    ],
    λ (real, place, prefix, resolved, given, is_real, under).
        let below : under_prefix rt (rt.normcase real) prefix ≡ true =
          (under_prefix-lies_under rt laws (rt.normcase real) prefix
              (laws.real_path-canonical path real resolved)
              (laws.real_path-canonical place prefix is_real)).1
            under in
        ground (
          arith,
          resolved,
          under_any-contains rt (rt.normcase real) prefixes prefix
              (complete place prefix given is_real) below,
        ),
  )

  -- A path passes the write rule of the policy that a builder makes just if its real location lies at or
  -- under the real location of a path given to `write_paths`, component by component; it passes the read
  -- rule just if that holds of a path given to `read_paths` or `write_paths`. `os.path` is assumed to keep
  -- what it documents.
  pub build-LiesWithin :
      (b : Builder) (path : String) {p : Policy}
      → build rt b ≡ ok p
      → ((within_any rt p.write_paths path ≡ ok true) ↔ LiesWithin b.write_paths path)
        × ((within_any rt p.read_paths path ≡ ok true)
            ↔ LiesWithin (b.read_paths ++ b.write_paths) path)
  build-LiesWithin b path {p} made =
      let (reads, writes, ok_reads, ok_writes, same_reads, same_writes) =
        build-prefixes rt b made in
      (
        within_any-LiesWithin b.write_paths p.write_paths path
            (λ prefix among.
              normalize_all_sound rt b.write_paths prefix ok_writes
                (ground (arith, contains-add_all [] writes prefix)))
            (λ place prefix given is_real. ground (
              arith,
              contains-add_all [] writes prefix,
              normalize_all_complete rt b.write_paths place prefix ok_writes given is_real,
            )),
        within_any-LiesWithin (b.read_paths ++ b.write_paths) p.read_paths path
            (λ prefix among.
              resolved_either rt b.read_paths b.write_paths prefix ok_reads ok_writes
                (ground (arith, contains-read_prefixes reads writes prefix)))
            (λ place prefix given is_real. ground (
              arith,
              contains-append b.read_paths b.write_paths place,
              contains-read_prefixes reads writes prefix,
              normalize_all_complete rt b.read_paths place prefix ok_reads,
              normalize_all_complete rt b.write_paths place prefix ok_writes,
            )),
      )
