-- ===== src/Packaging.antt =====
-- hatch_build.py: the platform tag of a wheel. The listing of the folder, the environment and
-- `sysconfig.get_platform` are parameters.
pub mod Texts
pub mod Wheel
pub mod Release
pub mod Released
pub mod Tags
pub mod Bundle
use asphallea.Prelude.{
  Bool, List, Option, String, [], any, false, none, some, ◌==◌, ◌<>◌, ◌∷◌, if◌then◌else◌,
}
use asphallea.Packaging.Texts.{starts_with, underscored}
use asphallea.Prelude.Dict.{Dict, get_or}

-- `bundled_binary_present`, of the names in `asphallea/_core`, which may be no folder
unfoldable pub bundled_binary_present : Option (List String) → Bool
bundled_binary_present none = false
bundled_binary_present (some names) = any (λ name. starts_with name "asphallea-run") names

-- `_LINUX_TAGS`
abbrev pub linux_tags : Dict String
linux_tags =
    ("linux_x86_64", "manylinux_2_17_x86_64") ∷ ("linux_aarch64", "manylinux_2_17_aarch64") ∷ []

-- The tag of a platform that nothing overrides.
unfoldable pub computed_tag : String → String
computed_tag platform =
    let plat = underscored platform in "py3-none-" <> get_or plat linux_tags plat

-- `platform_tag`, with the value of `ASPHALLEA_WHEEL_PLATFORM`
unfoldable pub platform_tag : Option String → String → String
unfolding computed_tag
platform_tag none platform = computed_tag platform
platform_tag (some override) platform =
    if override == "" then computed_tag platform else "py3-none-" <> override

-- The entries of `build_data` that the hook sets.
pub record BuildData : Type 0 where
  pub pure_python : Bool
  pub tag : Option String

-- `CustomBuildHook.initialize`
unfoldable pub initialize : Option (List String) → Option String → String → BuildData → BuildData
unfolding bundled_binary_present platform_tag
initialize core_dir override platform build_data =
    if bundled_binary_present core_dir
    then record { pure_python = false; tag = some (platform_tag override platform) }
    else build_data
