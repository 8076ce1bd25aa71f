-- ===== src/Build.antt =====
-- internal/build/build.go: the version of this build, from the build flags and the build info that
-- the Go runtime gives (a parameter; none if it has none). The package variables are a record.
pub mod Version
use abctl.Common.{
  String, Bool, true, not, ◌&&◌, Option, none, some, List, [], ◌∷◌, ◌==◌, if◌then◌else◌, ◌++◌,
}
use abctl.Helm.Semver.{Semver}
use abctl.Helm.Chart.{with_v}

pub record Vars : Type 0 where
  pub version : String
  pub revision : String
  pub modified : Bool
  pub modification_time : String

-- debug.BuildInfo: Main.Version, and the settings by key and value.
pub record BuildInfo : Type 0 where
  pub main_version : String
  pub settings : List (String × String)

-- One round of the loop over the settings.
unfoldable pub read_setting : String × String → Vars → Vars
read_setting (key, value) v =
    if key == "vcs.modified"
    then record v { modified = value == "true" }
    else if key == "vcs.time"
    then record v { modification_time = value }
    else if key == "vcs.revision"
    then record v { revision = value }
    else v

unfoldable pub read_settings : List (String × String) → Vars → Vars
read_settings [] v = v
read_settings (kv ∷ settings) v = read_settings settings (read_setting kv v)

-- if buildInfo.Main.Version != "" && buildInfo.Main.Version != "(devel)" { … }
unfoldable pub main_version : String → Vars → Vars
main_version main v =
    if not (main == "") && not (main == "(devel)") then record v { version = main } else v

-- The first block of setVersion, for a version "dev".
unfoldable pub from_build_info : Option BuildInfo → Vars → Vars
from_build_info none v = v
from_build_info (some info) v = read_settings info.settings (main_version info.main_version v)

-- The version with its "v", or "invalid (…)" with the version as it was.
unfoldable pub normal_version : Semver → String → String
normal_version sv orig =
    if sv.is_valid (with_v orig) then with_v orig else "invalid (" ++ (orig ++ ")")

module _ (sv : Semver) where
  -- The second block.
  unfoldable pub normalize_version : Vars → Vars
  normalize_version v =
      if v.version == "dev" then v else record v { version = normal_version sv v.version }

  -- setVersion
  unfoldable pub set_version : Option BuildInfo → Vars → Vars
  set_version info v = normalize_version (if v.version == "dev" then from_build_info info v else v)
