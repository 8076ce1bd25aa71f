-- ===== src/K8s/Cluster/Ports.antt =====
-- The configuration of the cluster.
use Prim.Native.Nat.{◌%◌, ◌^◌}
use mathlib.Core.List
use mathlib.Core.Option
use abctl.Common.{String, ℕ, ◌<◌, List, [], ◌∷◌, map, some, ℤ, pos, ◌≡◌, sym, ap, ◌∙◌, arith}
use abctl.K8s.Volumes.{ExtraVolumeMount}
use abctl.K8s.Cluster.{
  Mount, Config, kubeadm_config_patch, int32, with_volume_mount, with_host_port, with_mounts,
  cluster_config,
}

-- A port below 2^31 is what int32 makes of it.
int32-small : (port : ℕ) → port < 2 ^ 31 → int32 (pos port) ≡ pos port
unfolding int32
int32-small port small =
    let same : port % 2 ^ 32 ≡ port = omega arith in rw same (ground (arith, small))

abbrev pub mount_of : ExtraVolumeMount → Mount
mount_of m = record { host_path = m.host_path; container_path = m.container_path }

-- The configuration with a port and the mounts behind the one of the data directory.
abbrev pub config_with : String → ℤ → List Mount → Config
config_with data_dir host_port mounts = record {
  kind = "Cluster";
  api_version = "kind.x-k8s.io/v1alpha4";
  nodes =
      record {
        role = "control-plane";
        kubeadm_config_patches = kubeadm_config_patch ∷ [];
        extra_mounts =
            record { host_path = data_dir; container_path = "/var/local-path-provisioner" }
            ∷ mounts;
        extra_port_mappings = record { container_port = pos 80; host_port = host_port } ∷ [];
      }
      ∷ [];
}

with_mounts-all :
    (data_dir : String) (port : ℤ) (mounts : List ExtraVolumeMount) (before : List Mount)
    → with_mounts mounts (config_with data_dir port before)
      ≡ some (config_with data_dir port (List.◌++◌ before (map mount_of mounts)))
unfolding with_mounts with_volume_mount Option.bind
with_mounts-all data_dir port [] before =
    ap (λ ms. some (config_with data_dir port ms)) (sym (List.append-nil before))
with_mounts-all data_dir port (mount ∷ mounts) before =
    with_mounts-all data_dir port mounts (List.◌++◌ before (mount_of mount ∷ []))
    ∙ ap (λ ms. some (config_with data_dir port ms))
        (List.append_assoc before (mount_of mount ∷ []) (map mount_of mounts))

-- The configuration always exists. Its one node maps port 80 to the port that was asked for, if that
-- is below 2^31, and mounts the data directory and then each extra mount, in their order.
pub cluster_config_all :
    (data_dir : String) (port : ℕ) (mounts : List ExtraVolumeMount)
    → port < 2 ^ 31
    → cluster_config data_dir (pos port) mounts
      ≡ some (config_with data_dir (pos port) (map mount_of mounts))
unfolding cluster_config with_host_port Option.bind
cluster_config_all data_dir port mounts small =
    rw (int32-small port small) (with_mounts-all data_dir (pos port) mounts [])
