-- ===== src/K8s/Volumes.antt =====
-- internal/k8s/volumes.go: volume mounts written as <HOST_PATH>:<GUEST_PATH>.
pub mod Parsing
use abctl.Common.{String, List, [], ◌∷◌, ◌++◌, split, Error, new, Result, ok, err, ◌>>=◌}

pub record ExtraVolumeMount : Type 0 where
  pub host_path : String
  pub container_path : String

-- errInvalidVolumeMountSpec
abbrev pub invalid_volume_mount_spec : String → Error
invalid_volume_mount_spec spec =
    new ("volume " ++ (spec ++ " is not a valid volume spec, must be <HOST_PATH>:<GUEST_PATH>"))

-- One round of the loop, from the parts of the spec.
unfoldable pub mount_of_parts : String → List String → Result ExtraVolumeMount
mount_of_parts spec (host ∷ guest ∷ []) = ok (record { host_path = host; container_path = guest })
mount_of_parts spec parts = err (invalid_volume_mount_spec spec)

-- ParseVolumeMounts. For no specs the source returns nil, which is an empty slice.
unfoldable pub parse_volume_mounts : List String → Result (List ExtraVolumeMount)
unfolding mount_of_parts
parse_volume_mounts [] = ok []
parse_volume_mounts (spec ∷ specs) = do
  mount ← mount_of_parts spec (split b':' spec)
  mounts ← parse_volume_mounts specs
  ok (mount ∷ mounts)
