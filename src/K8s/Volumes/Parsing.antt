-- ===== src/K8s/Volumes/Parsing.antt =====
-- `ParseVolumeMounts` reads back what is written in its format, and fails at the first other spec.
use mathlib.Core.List
use abctl.Common.{
  String, List, [], ◌∷◌, map, ◌≡◌, refl, ap, ◌∙◌, ◌++◌, split, split-append, split-Lacks, Lacks,
  All, Error, ok, err,
}
use abctl.K8s.Volumes.{ExtraVolumeMount, mount_of_parts, parse_volume_mounts}

-- The spec of a mount.
abbrev pub spec_of : ExtraVolumeMount → String
spec_of m = m.host_path ++ (":" ++ m.container_path)

-- No path of the mount holds a colon.
abbrev pub IsWritable : ExtraVolumeMount → Type 0
IsWritable m = Lacks b':' m.host_path × Lacks b':' m.container_path

split-spec_of :
    (m : ExtraVolumeMount)
    → IsWritable m
    → split b':' (spec_of m) ≡ m.host_path ∷ m.container_path ∷ []
split-spec_of m (h, g) =
    split-append ":" m.host_path m.container_path h
    ∙ ap (λ (parts : List String). m.host_path ∷ parts) (split-Lacks b':' m.container_path g)

-- The specs of mounts whose paths hold no colon parse to these mounts, in order.
pub parse_volume_mounts-spec_of :
    (mounts : List ExtraVolumeMount)
    → All IsWritable mounts
    → parse_volume_mounts (map spec_of mounts) ≡ ok mounts
unfolding parse_volume_mounts
parse_volume_mounts-spec_of [] h = refl
parse_volume_mounts-spec_of (m ∷ mounts) (w, h) =
    rw (split-spec_of m w, parse_volume_mounts-spec_of mounts h) refl

-- With a spec behind them that does not split at exactly one colon, parsing fails and names it.
pub parse_volume_mounts_fails :
    (mounts : List ExtraVolumeMount) (bad : String) (rest : List String) (e : Error)
    → All IsWritable mounts
    → mount_of_parts bad (split b':' bad) ≡ err e
    → parse_volume_mounts (List.◌++◌ (map spec_of mounts) (bad ∷ rest)) ≡ err e
unfolding parse_volume_mounts
parse_volume_mounts_fails [] bad rest e h fails = rw fails refl
parse_volume_mounts_fails (m ∷ mounts) bad rest e (w, h) fails =
    rw (split-spec_of m w, parse_volume_mounts_fails mounts bad rest e h fails) refl
