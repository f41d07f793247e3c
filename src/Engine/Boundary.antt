-- ===== src/Engine/Boundary.antt =====
-- On `_within_any` of asphallea/engine.py: what lies under a prefix, in components of paths.
use asphallea.Prelude.{
  ◌≡◌, ◌≢◌, ◌↔◌, ◌⊎◌, inl, inr, String, Bool, true, false, ◌&&◌, ◌==◌, List, [], ◌∷◌, arith,
  if◌then◌else◌,
}
use asphallea.Runtime.{Runtime}
use asphallea.Errors.{Exception, ok, raise}
use asphallea.Engine.{under_prefix}

-- The entries with which both lists begin.
unfoldable pub shared : List String → List String → List String
shared [] ys = []
shared (x ∷ xs) [] = []
shared (x ∷ xs) (y ∷ ys) = let rest = shared xs ys in if x == y then x ∷ rest else []

-- Whether `xs` begins with `front`.
unfoldable pub begins_with : List String → List String → Bool
begins_with xs [] = true
begins_with [] (y ∷ front) = false
begins_with (x ∷ xs) (y ∷ front) = (x == y) && begins_with xs front

-- What `os.path` documents. A canonical path is absolute, without links, `.`, `..` and doubled or final
-- separators, and of one case; its components are its root, the folders on the way and its last name.
pub record PathLaws (rt : Runtime) : Type 0 where
  pub components : String → List String
  pub is_canonical : String → Bool
  -- A path has a root.
  pub components_root : (a : String) → is_canonical a ≡ true → components a ≢ []
  -- A canonical path is spelled in one way.
  pub components-injective :
      (a b : String)
      → is_canonical a ≡ true
      → is_canonical b ≡ true
      → components a ≡ components b
      → a ≡ b
  -- `realpath` and `normcase` make paths canonical.
  pub real_path-canonical :
      (path real : String) → rt.real_path path ≡ ok real → is_canonical (rt.normcase real) ≡ true
  -- `commonpath` answers with the longest common path, and raises if not even the roots agree.
  pub commonpath-shared :
      (a b : String)
      → is_canonical a ≡ true
      → is_canonical b ≡ true
      → ((common : String) × (rt.commonpath a b ≡ ok common)
          × (is_canonical common ≡ true)
          × (components common ≡ shared (components a) (components b)))
        ⊎ ((x : Exception) × (rt.commonpath a b ≡ raise x)
            × (shared (components a) (components b) ≡ []))

-- `xs` begins with `ys` just if they share all of `ys`.
shared-begins_with : (xs ys : List String) → begins_with xs ys ≡ true → shared xs ys ≡ ys
unfolding shared begins_with
shared-begins_with [] [] h = ground arith
shared-begins_with [] (y ∷ ys) h = absurd (ground arith)
shared-begins_with (x ∷ xs) [] h = ground arith
shared-begins_with (x ∷ xs) (y ∷ ys) h = ground (arith, shared-begins_with xs ys)

begins_with-shared : (xs ys : List String) → begins_with xs (shared xs ys) ≡ true
unfolding shared begins_with
begins_with-shared [] ys = ground arith
begins_with-shared (x ∷ xs) [] = ground arith
begins_with-shared (x ∷ xs) (y ∷ ys) = ground (arith, begins_with-shared xs ys)

module _ (rt : Runtime) (laws : PathLaws rt) where
  open laws use {components, is_canonical, components_root, components-injective, commonpath-shared}

  -- Whether the path lies at the prefix or under it.
  abbrev pub lies_under : String → String → Bool
  lies_under real prefix = begins_with (components real) (components (rt.normcase prefix))

  pub under_prefix-lies_under :
      (real prefix : String)
      → is_canonical real ≡ true
      → is_canonical (rt.normcase prefix) ≡ true
      → (under_prefix rt real prefix ≡ true) ↔ (lies_under real prefix ≡ true)
  unfolding under_prefix
  under_prefix-lies_under real prefix can can' =
      elim (commonpath-shared real (rt.normcase prefix) can can') [
        | inl (common, answers, canon, is_shared) ↦ (
          λ h. ground (
            arith,
            answers,
            is_shared,
            begins_with-shared (components real) (components (rt.normcase prefix)),
          ),
          λ h. ground (
            arith,
            answers,
            components-injective common (rt.normcase prefix) canon can',
            shared-begins_with (components real) (components (rt.normcase prefix)) h,
          ),
        )
        | inr (x, raises, none_) ↦ (
          λ h. absurd (ground arith),
          λ h. absurd (
              ground (
                arith,
                components_root (rt.normcase prefix) can',
                shared-begins_with (components real) (components (rt.normcase prefix)) h,
              )),
        )
      ]
