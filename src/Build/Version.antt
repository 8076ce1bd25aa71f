-- ===== src/Build/Version.antt =====
-- What `setVersion` leaves in the package variables.
use abctl.Common.{
  String, not, ◌&&◌, Option, none, some, List, [], ◌∷◌, ◌≡◌, refl, ap, ◌∙◌, arith, ◌==◌,
  if◌then◌else◌,
}
use abctl.Helm.Semver.{Semver}
use abctl.Build.{
  Vars, BuildInfo, read_setting, read_settings, main_version, from_build_info, normal_version,
  normalize_version, set_version,
}

-- The version that is normalised: the one from the build flags, or for "dev" the main module's.
abbrev pub original : Option BuildInfo → Vars → String
original none v = v.version
original (some info) v =
    if v.version == "dev" && (not (info.main_version == "") && not (info.main_version == "(devel)"))
    then info.main_version
    else v.version

read_setting-version : (kv : String × String) (v : Vars) → (read_setting kv v).version ≡ v.version
unfolding read_setting
read_setting-version kv v = ground arith

read_settings-version :
    (settings : List (String × String)) (v : Vars) → (read_settings settings v).version ≡ v.version
unfolding read_settings
read_settings-version [] v = refl
read_settings-version (kv ∷ settings) v =
    read_settings-version settings (read_setting kv v) ∙ read_setting-version kv v

version-original :
    (info : Option BuildInfo) (v : Vars)
    → (if v.version == "dev" then from_build_info info v else v).version ≡ original info v
unfolding from_build_info main_version
version-original none v = ground arith
version-original (some info) v =
    ground (arith, read_settings-version info.settings (main_version info.main_version v))

module _ (sv : Semver) where
  version-normalize :
      (v : Vars)
      → (normalize_version sv v).version
        ≡ (if v.version == "dev" then v.version else normal_version sv v.version)
  unfolding normalize_version
  version-normalize v = ground arith

  -- The version becomes "dev" if the original one is; else the original one with a "v" before it,
  -- if this is a valid version; else "invalid (…)" around the original one. The original version is
  -- that of the build flags, or, if that is "dev", a main module's version that is neither empty
  -- nor "(devel)".
  pub version-set_version :
      (info : Option BuildInfo) (v : Vars)
      → (set_version sv info v).version ≡ (
          if original info v == "dev" then original info v else normal_version sv (original info v))
  unfolding set_version
  version-set_version info v =
      version-normalize (if v.version == "dev" then from_build_info info v else v)
      ∙ ap (λ (s : String). if s == "dev" then s else normal_version sv s) (version-original info v)
