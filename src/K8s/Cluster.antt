-- ===== src/K8s/Cluster.antt =====
-- internal/k8s/cluster.go, provider.go and kind/config.go: the cluster that kind runs.
pub mod Ports
use abctl.Common.{
  String, ℕ, ◌+◌, ◌-◌, ◌≤◌, ◌*◌, Bool, true, false, leb, if◌then◌else◌, ◌++◌, contains, List, [],
  ◌∷◌, Option, none, some, Error, new, panicked, errorf, message, Result, ok, err, wrap, ℤ, pos,
  negsuc, ◌≡◌,
}
use Prim.Native.Nat.{◌%◌, ◌^◌}
use mathlib.Core.List
use mathlib.Core.Option
use abctl.Effects.{
  Call, World, Program, return, fail, try, from_result, with_error, perform, ◌>>=◌, ◌>>◌,
}
use abctl.K8s.Volumes.{ExtraVolumeMount}
use abctl.K8s.Images.{load_images}

-- The members of Mount, PortMapping and Node that the program sets; the others are zero.
pub record Mount : Type 0 where
  pub host_path : String
  pub container_path : String

pub record PortMapping : Type 0 where
  pub container_port : ℤ
  pub host_port : ℤ

pub record Node : Type 0 where
  pub role : String
  pub extra_mounts : List Mount
  pub extra_port_mappings : List PortMapping
  pub kubeadm_config_patches : List String

pub record Config : Type 0 where
  pub kind : String
  pub api_version : String
  pub nodes : List Node

abbrev pub ingress_port : ℤ
ingress_port = pos 8000

abbrev pub kubeadm_config_patch : String
kubeadm_config_patch =
    "kind: InitConfiguration\nnodeRegistration:\n  kubeletExtraArgs:\n    node-labels: \"ingress-ready=true\""

-- DefaultConfig, with paths.Data
abbrev pub default_config : String → Config
default_config data_dir = record {
  kind = "Cluster";
  api_version = "kind.x-k8s.io/v1alpha4";
  nodes =
      record {
        role = "control-plane";
        kubeadm_config_patches = kubeadm_config_patch ∷ [];
        extra_mounts =
            record { host_path = data_dir; container_path = "/var/local-path-provisioner" } ∷ [];
        extra_port_mappings = record { container_port = pos 80; host_port = ingress_port } ∷ [];
      }
      ∷ [];
}

-- The value of a 32-bit pattern as a signed integer.
abbrev pub signed32 : ℕ → ℤ
signed32 n = if leb n 2147483647 then pos n else negsuc (4294967295 - n)

-- int32(port)
unfoldable pub int32 : ℤ → ℤ
int32 (pos n) = signed32 (n % 2 ^ 32)
int32 (negsuc n) = signed32 (4294967295 - n % 2 ^ 32)

-- WithVolumeMount, which changes c.Nodes[0]; `none` is the panic of an index out of range.
abbrev add_mount : Mount → List Node → Option (List Node)
add_mount mount [] = none
add_mount mount (node ∷ nodes) =
    some (record node { extra_mounts = List.◌++◌ node.extra_mounts (mount ∷ []) } ∷ nodes)

unfoldable pub with_volume_mount : String → String → Config → Option Config
with_volume_mount host_path container_path c =
    Option.map (λ nodes. record c { nodes = nodes })
      (add_mount (record { host_path = host_path; container_path = container_path }) c.nodes)

-- WithHostPort, which changes c.Nodes[0].ExtraPortMappings[0].
abbrev set_host_port : ℤ → List PortMapping → Option (List PortMapping)
set_host_port port [] = none
set_host_port port (mapping ∷ mappings) =
    some (record mapping { host_port = int32 port } ∷ mappings)

abbrev set_node_port : ℤ → List Node → Option (List Node)
set_node_port port [] = none
set_node_port port (node ∷ nodes) =
    Option.map (λ mappings. record node { extra_port_mappings = mappings } ∷ nodes)
      (set_host_port port node.extra_port_mappings)

unfoldable pub with_host_port : ℤ → Config → Option Config
unfolding int32
with_host_port port c =
    Option.map (λ nodes. record c { nodes = nodes }) (set_node_port port c.nodes)

unfoldable pub with_mounts : List ExtraVolumeMount → Config → Option Config
unfolding with_volume_mount
with_mounts [] c = some c
with_mounts (mount ∷ mounts) c =
    Option.bind (with_volume_mount mount.host_path mount.container_path c) (with_mounts mounts)

-- The configuration that Create makes.
unfoldable pub cluster_config : String → ℤ → List ExtraVolumeMount → Option Config
unfolding with_host_port with_mounts
cluster_config data_dir port mounts =
    Option.bind (with_host_port port (default_config data_dir)) (with_mounts mounts)

-- What the cluster knows, and the libraries it uses: yaml.Marshal, and the output of a failed command
-- of kind, as errors.As finds it.
pub record KindCluster : Type 0 where
  pub name : String
  pub kubeconfig : String
  pub data_dir : String
  pub marshal_config : Config → Result String
  pub run_output : Error → Option String

abbrev pub node_image : String
node_image =
    "kindest/node:v1.32.2@sha256:f226345927d7e348497136874b6d207e0b32cc52154ad8323129352923a3142f"

module _ (w : World) (k : KindCluster) where
  -- formatKindErr
  unfoldable pub format_kind_err : Error → Error
  format_kind_err e = with_output (k.run_output e)
    where
      with_output : Option String → Error
      with_output none = e
      with_output (some output) = errorf "" e (": " ++ output)

  abbrev pub or_panic : Option Config → Result Config
  or_panic none = err (panicked "runtime error: index out of range")
  or_panic (some c) = ok c

  unfoldable pub create : ℤ → List ExtraVolumeMount → Program (Unit {0})
  unfolding format_kind_err cluster_config
  create port extra_mounts = do
    with_error (λ e. errorf ("unable to create directory '" ++ (k.data_dir ++ "': ")) e "")
        (perform w (Call.mkdir_all k.data_dir 0o766))
    config ← from_result (or_panic (cluster_config k.data_dir port extra_mounts))
    raw_cfg ← from_result (wrap "unable to marshal Kind cluster config: " (k.marshal_config config))
    with_error (λ e. errorf "unable to create kind cluster: " (format_kind_err e) "")
        (perform w (Call.kind_create k.name k.kubeconfig node_image raw_cfg))

  unfoldable pub delete : Program (Unit {0})
  unfolding format_kind_err
  delete =
      with_error (λ e. errorf "unable to delete kind cluster: " (format_kind_err e) "")
        (perform w (Call.kind_delete k.name k.kubeconfig))

  -- The clusters that List gives: none when it fails.
  abbrev pub listed : Result (List String) → List String
  listed (err e) = []
  listed (ok clusters) = clusters

  unfoldable pub exists : Program Bool
  exists = do clusters ← try (perform w Call.kind_list); return (contains (listed clusters) k.name)

  abbrev pub load_onto_nodes : List String → Result (List String) → Program (Unit {0})
  load_onto_nodes images (err e) = return tt
  load_onto_nodes images (ok nodes) = try (load_images w nodes images) >> return tt

  -- LoadImages, whose errors are dropped.
  unfoldable pub load_images_onto : List String → Program (Unit {0})
  unfolding load_images
  load_images_onto images = try (perform w (Call.kind_list_nodes k.name)) >>= load_onto_nodes images

-- Provider.Cluster: the directory of the kubeconfig is made, and the kubeconfig of the cluster
-- exported; %v prints the error, where %w would wrap it.
unfoldable pub provider_cluster : World → (String → String) → KindCluster → Program (Unit {0})
provider_cluster w dir k = do
  with_error (λ e. new ("unable to create directory " ++ (k.kubeconfig ++ (": " ++ message e))))
      (perform w (Call.mkdir_all (dir k.kubeconfig) 0o766))
  try (perform w (Call.export_kube_config k.name k.kubeconfig))
  return tt
