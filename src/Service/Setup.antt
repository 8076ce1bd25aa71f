-- ===== src/Service/Setup.antt =====
-- internal/service/manager.go: the clients and the manager, and PrepImages of install.go.
use abctl.Common.{
  String, Bool, if◌then◌else◌, ◌++◌, List, Option, Error, new, errorf, message, Result, ok, err, ℤ,
  pos, zero,
}
use abctl.Effects.{Call, World, Program, return, with_error, perform, ◌>>=◌, ◌>>◌}
use abctl.Merge.{docker_images}
use abctl.Helm.Semver.{Semver}
use abctl.Helm.Images.{Object, ChartClient, find_images_from_chart}
use abctl.K8s.Cluster.{KindCluster, load_images_onto, ingress_port}
use abctl.Service.{Manager, InstallOpts, airbyte_namespace}

abbrev pub err_kubernetes : Error
err_kubernetes = new "error communicating with kubernetes"

-- fmt.Errorf("%w: between%w", abctl.ErrKubernetes, err), which prints both.
abbrev pub kubernetes_error : String → Error → Error
kubernetes_error between e = errorf "" err_kubernetes (": " ++ (between ++ message e))

module _ (w : World) (kubeconfig context : String) where
  -- DefaultK8s
  unfoldable pub default_k8s : Program (Unit {0})
  default_k8s = do
    with_error (kubernetes_error "could not create rest config: ")
        (perform w (Call.rest_config kubeconfig context))
    with_error (kubernetes_error "could not create clientset: ") (perform w Call.new_clientset)

  -- helm.New
  abbrev pub new_helm : Program (Unit {0})
  new_helm = perform w (Call.helm_new kubeconfig context airbyte_namespace)

  -- DefaultManagerClientFactory
  unfoldable pub default_manager_client_factory : Program (Unit {0})
  unfolding default_k8s
  default_manager_client_factory = do
    with_error (λ e. errorf "failed to initialize the kubernetes client: " e "") default_k8s
    with_error (λ e. errorf "failed to initialize the helm client: " e "") new_helm

  -- The options that NewManager is given: the port, and whether it is given the clients.
  pub record ManagerOptions : Type 0 where
    pub port_http : ℤ
    pub has_k8s : Bool
    pub has_helm : Bool

  -- `if m.portHTTP == 0 { m.portHTTP = kind.IngressPort }`
  unfoldable pub port_or_default : ℤ → ℤ
  port_or_default (pos zero) = ingress_port
  port_or_default port = port

  -- NewManager; `m` is the rest of what the manager knows.
  unfoldable pub new_manager : ManagerOptions → Manager → Program Manager
  unfolding default_k8s port_or_default
  new_manager opts m = do
    if opts.has_k8s then return tt else default_k8s
    if opts.has_helm then return tt else new_helm
    version ←
        with_error (kubernetes_error "unable to fetch kubernetes server version: ")
          (perform w Call.server_version_get)
    return (record m { port_http = port_or_default opts.port_http })

-- PrepImages, whose errors are dropped.
module _ (w : World) (k : KindCluster) (sv : Semver) (client : ChartClient)
    (decode : String → Option Object) where
  abbrev pub load_manifest : List String → Result (List String) → Program (Unit {0})
  load_manifest with_images (err e) = return tt
  load_manifest with_images (ok manifest) =
      load_images_onto w k (docker_images manifest with_images)

  unfoldable pub prep_images : InstallOpts → List String → Program (Unit {0})
  unfolding load_images_onto
  prep_images opts with_images = load_manifest with_images (
      find_images_from_chart decode sv client opts.helm_values_yaml opts.airbyte_chart_loc
        opts.helm_chart_version)
