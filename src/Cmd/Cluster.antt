-- ===== src/Cmd/Cluster.antt =====
-- internal/cmd/local/install.go: the cluster of an installation, which is found or created.
pub mod Ready
use abctl.Common.{String, Bool, if◌then◌else◌, ◌==◌, List, Result, ℤ}
use abctl.Effects.{World, Program, return, ◌>>=◌, ◌>>◌}
use abctl.K8s.Volumes.{ExtraVolumeMount}
use abctl.K8s.Cluster.{KindCluster, create, exists, provider_cluster}
use abctl.Cmd.{System, port_available, get_port}

-- k8s.Provider, less what the cluster knows already; filepath.Dir.
pub record Provider : Type 0 where
  pub name : String
  pub context : String
  pub dir : String → String

module _ (w : World) (sys : System) (k : KindCluster) (provider : Provider) where
  -- The port of a cluster that exists: of a kind cluster, the one it is bound to.
  unfoldable pub existing_port : ℤ → Program ℤ
  unfolding get_port
  existing_port port = if provider.name == "kind" then get_port w sys k.name else return port

  unfoldable pub create_cluster : ℤ → List ExtraVolumeMount → Program ℤ
  unfolding port_available create
  create_cluster port mounts = do port_available w sys port; create w k port mounts; return port

  -- The start of Run's function: the cluster, and the port that is used from there on.
  unfoldable pub ensure_cluster : ℤ → List ExtraVolumeMount → Program ℤ
  unfolding existing_port create_cluster
  ensure_cluster port mounts = do
    provider_cluster w provider.dir k
    there ← exists w k
    if there then existing_port port else create_cluster port mounts
