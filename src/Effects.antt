-- ===== src/Effects.antt =====
-- The calls that the program makes of its environment: the ClientSet that internal/k8s/client.go
-- wraps, the Helm client, files, HTTP and the clock. A program is a function of the calls made
-- before it (the latest first), and gives its result and the calls made after it.
pub mod Invariants
use abctl.Common.{String, ℤ, ℕ, Bool, List, ◌∷◌, Option, Error, Result, ok, err}
use abctl.Auth.{TokenReply, ProviderReply}
use abctl.K8s.Ingress.{Ingress}

pub record Secret : Type 0 where
  pub namespace : String
  pub name : String
  pub secret_type : String
  pub data_of : List (String × String)

pub record Pod : Type 0 where
  pub name : String
  pub phase : String

pub record ChartMetadata : Type 0 where
  pub version : String
  pub app_version : String

pub record Release : Type 0 where
  pub status : String
  pub metadata : ChartMetadata

-- goHelm.ChartSpec, less the flags that every call sets alike.
pub record ChartSpec : Type 0 where
  pub release_name : String
  pub chart_name : String
  pub namespace : String
  pub values_yaml : String
  pub version : String

pub record PersistentVolume : Type 0 where
  pub name : String
  pub namespace : String
  pub host_path : String
  pub reclaim_policy : String
  pub storage_class_name : String

pub record PersistentVolumeClaim : Type 0 where
  pub namespace : String
  pub name : String
  pub volume_name : String
  pub storage_class_name : String

-- A pod as a restart of its deployment sees it: its phase, its annotations, and the type and the
-- status of its conditions.
pub record PodState : Type 0 where
  pub phase : String
  pub annotations : List (String × String)
  pub conditions : List (String × String)

-- What the inspection of a container gives: its state's status, if it has a state, and its port
-- bindings, as pairs of a host IP and a host port, in the order of the map's iteration.
pub record ContainerInfo : Type 0 where
  pub status : Option String
  pub bindings : List (List (String × String))

-- image.Summary, as far as the program reads it.
pub record ImageSummary : Type 0 where
  pub id : String
  pub repo_tags : List String

pub record ConfigMap : Type 0 where
  pub namespace : String
  pub name : String
  pub annotations : List (String × String)
  pub data_of : List (String × String)

-- What os.Stat gives: whether it is a directory, and its permissions.
pub record FileInfo : Type 0 where
  pub is_dir : Bool
  pub perm : ℕ

-- A response: its status, and its header WWW-Authenticate.
pub record Response : Type 0 where
  pub status_code : ℕ
  pub www_authenticate : String

pub data Call : Type 0 where
  namespace_get : String → Call
  namespace_create : String → Call
  persistent_volume_get : String → Call
  persistent_volume_create : PersistentVolume → Call
  persistent_volume_claim_get : String → String → Call
  persistent_volume_claim_create : PersistentVolumeClaim → Call
  ingress_get : String → String → Call
  ingress_create : String → Ingress → Call
  ingress_update : String → Ingress → Call
  secret_get : String → String → Call
  secret_create : Secret → Call
  secret_update : Secret → Call
  secret_delete_collection : String → String → Call
  config_map_get : String → String → Call
  config_map_list : String → Call
  config_map_create : ConfigMap → Call
  config_map_update : ConfigMap → Call
  secret_patch : String → String → String → Call
  current_namespace : Call
  stat_mode : String → Call
  pod_list : String → Call
  logs_get : String → String → Call
  service_get : String → String → Call
  add_or_update_chart_repo : String → String → Call
  get_chart : String → String → Call
  get_release : String → Call
  uninstall_release : String → Call
  install_or_upgrade_chart : ChartSpec → Call
  mkdir_all : String → ℕ → Call
  chmod : String → ℕ → Call
  remove_all : String → Call
  read_file : String → Call
  poll : String → Call
  open_browser : String → Call
  http_get : String → Call
  token_request : String → List (String × String) → Call
  time_now : Call
  deployment_patch : String → String → String → Call
  pod_list_by : String → String → Call
  export_kube_config : String → String → Call
  kind_create : String → String → String → String → Call
  kind_delete : String → String → Call
  kind_list : Call
  kind_list_nodes : String → Call
  file_stat : String → Call
  write_file : String → String → ℕ → Call
  new_uuid : Call
  http_post : String → String → Call
  stat_dir : String → Call
  docker_new : Call
  docker_version : Call
  docker_info : Call
  listen : ℤ → Call
  container_inspect : String → Call
  rest_config : String → String → Call
  new_clientset : Call
  helm_new : String → String → String → Call
  server_version_get : Call
  deployment_list : String → Call
  image_pull : String → Call
  context_err : Call
  ctr_images_list : String → Call
  image_list : List String → Call
  temp_dir : String → Call
  create_file : String → Call
  image_save : List String → Call
  copy_image : String → Call
  open_file : String → Call
  load_image_archive : String → String → Call

-- What a call returns when it does not fail. A service gives the number of its
-- ingresses; a patched deployment the label selector of its pods; `poll` the responses to a request that is sent every second, until the context ends.
abbrev pub Answer : Call → Type 0
Answer (secret_get namespace name) = Secret
Answer (config_map_get namespace name) = List (String × String)
Answer (config_map_list namespace) = List ConfigMap
Answer current_namespace = String
Answer (stat_mode path) = FileInfo
Answer (pod_list namespace) = List Pod
Answer (logs_get namespace name) = String
Answer (service_get namespace name) = ℕ
Answer (get_chart loc version) = ChartMetadata
Answer (get_release name) = Release
Answer (install_or_upgrade_chart chart) = ℕ
Answer (read_file path) = String
Answer (poll url) = List (Option Response)
Answer (http_get url) = ProviderReply
Answer (token_request endpoint form) = TokenReply
Answer time_now = ℕ
Answer (deployment_patch namespace name data_of) = String
Answer (pod_list_by namespace label) = List PodState
Answer kind_list = List String
Answer (kind_list_nodes name) = List String
Answer new_uuid = String
Answer (stat_dir path) = Bool
Answer docker_version = String
Answer (container_inspect name) = ContainerInfo
Answer server_version_get = String
Answer (deployment_list namespace) = List String
Answer (ctr_images_list node) = List String
Answer (image_list references) = List ImageSummary
Answer (temp_dir pattern) = String
Answer _ = Unit {0}

-- The environment: its answer to a call, after the calls before it. And the tests and decoders of
-- the libraries.
pub record World : Type 0 where
  pub ask : List Call → (c : Call) → Result (Answer c)
  pub is_not_found : Error → Bool
  pub unmarshal_secret : String → Result Secret

-- A program with state: it gives its result and the state after it, also when it fails.
abbrev pub Stateful {ℓ κ} : Type ℓ → Type κ → Type (ℓ ⊔ κ)
Stateful S A = S → Result A × S

abbrev pub Program {ℓ} : Type ℓ → Type ℓ
Program A = Stateful (List Call) A

abbrev pub return {ℓ κ} : {S : Type ℓ} {A : Type κ} → A → Stateful S A
return a s = (ok a, s)

abbrev pub fail {ℓ κ} : {S : Type ℓ} {A : Type κ} → Error → Stateful S A
fail e s = (err e, s)

unfoldable pub and_then {ℓ κ μ} :
    {S : Type ℓ} {A : Type κ} {B : Type μ} → Result A × S → (A → Stateful S B) → Result B × S
and_then (ok a, s) f = f a s
and_then (err e, s) f = (err e, s)

infixl 5 ◌>>=◌ ◌>>◌
abbrev pub ◌>>=◌ {ℓ κ μ} :
    {S : Type ℓ} {A : Type κ} {B : Type μ} → Stateful S A → (A → Stateful S B) → Stateful S B
(m >>= f) s = and_then (m s) f

abbrev pub ◌>>◌ {ℓ κ μ} :
    {S : Type ℓ} {A : Type κ} {B : Type μ} → Stateful S A → Stateful S B → Stateful S B
m >> k = m >>= λ _. k

-- `if err != nil { … }` around a call: its result as a value.
abbrev pub try {ℓ κ} : {S : Type ℓ} {A : Type κ} → Stateful S A → Stateful S (Result A)
try m s = (ok (m s).0, (m s).1)

-- A pure result.
abbrev pub from_result {ℓ κ} : {S : Type ℓ} {A : Type κ} → Result A → Stateful S A
from_result r s = (r, s)

-- The error that a failed program is given.
abbrev change_error {ℓ} : {A : Type ℓ} → (Error → Error) → Result A → Result A
change_error f (ok a) = ok a
change_error f (err e) = err (f e)

abbrev pub with_error {ℓ κ} :
    {S : Type ℓ} {A : Type κ} → (Error → Error) → Stateful S A → Stateful S A
with_error f m s = (change_error f (m s).0, (m s).1)

abbrev pub perform : World → (c : Call) → Program (Answer c)
perform w c calls = (w.ask calls c, c ∷ calls)
