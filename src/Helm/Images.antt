-- ===== src/Helm/Images.antt =====
-- internal/helm/images.go: the images that a rendered chart mentions. The decoder of Kubernetes
-- resources and the Helm client are parameters.
pub mod Found
use abctl.Common.{
  String, Option, none, some, List, [], ◌∷◌, ◌==◌, if◌then◌else◌, ◌++◌, has_suffix, split_text,
  Result, ok, ◌>>=◌,
}
use mathlib.Core.List
use abctl.Common.Sort.{sort_texts}
use abctl.TextSet.{TextSet, empty, add_all, items}
use abctl.Helm.Semver.{Semver}
use abctl.Helm.Chart.{chart_is_v2_plus}

-- The images of the containers of a pod, in the order of the specification.
pub record PodSpec : Type 0 where
  pub init_containers : List String
  pub containers : List String

-- A decoded resource, as far as the switch of `findAllImages` looks at it. Jobs, deployments and
-- stateful sets hold the pod of their template.
pub data Object : Type 0 where
  config_map : String → List (String × String) → Object
  pod job deployment stateful_set : PodSpec → Object
  other : Object

-- The values of the variables whose name ends in _IMAGE.
unfoldable pub image_variables : List (String × String) → List String
image_variables [] = []
image_variables ((k, v) ∷ variables) =
    if has_suffix k "_IMAGE" then v ∷ image_variables variables else image_variables variables

abbrev pub pod_images : PodSpec → List String
pod_images p = List.◌++◌ p.init_containers p.containers

-- What one round of the loop adds to the set.
unfoldable pub object_images : Object → List String
unfolding image_variables
object_images (config_map name variables) =
    if has_suffix name "airbyte-env" then image_variables variables else []
object_images (pod p) = pod_images p
object_images (job p) = pod_images p
object_images (deployment p) = pod_images p
object_images (stateful_set p) = pod_images p
object_images other = []

unfoldable pub add_objects : List Object → TextSet → TextSet
add_objects [] s = s
add_objects (o ∷ objs) s = add_objects objs (add_all (object_images o) s)

-- The last loop: items that are empty texts are left out.
unfoldable pub non_empty : List String → List String
non_empty [] = []
non_empty (k ∷ ks) = if k == "" then non_empty ks else k ∷ non_empty ks

abbrev pub with_decoded : Option Object → List Object → List Object
with_decoded none out = out
with_decoded (some obj) out = obj ∷ out

-- What the function asks of the Helm client: the repository (by name and URL), and a dry run of the
-- installation (values, chart, version), which returns the manifests of the release and its hooks.
pub record ChartClient : Type 0 where
  pub add_or_update_chart_repo : String → String → Result (Unit {0})
  pub install_chart_dry_run : String → String → String → Result (String × List String)

-- The loop that appends the manifests of the hooks.
unfoldable pub full_manifest : String → List String → String
full_manifest manifest [] = manifest
full_manifest manifest (hook ∷ hooks) = full_manifest (manifest ++ ("\n---\n" ++ hook)) hooks

abbrev pub airbyte_repo_url_v1 : String
airbyte_repo_url_v1 = "https://airbytehq.github.io/helm-charts"

abbrev pub airbyte_repo_url_v2 : String
airbyte_repo_url_v2 = "https://airbytehq.github.io/charts"

-- `decode` returns none for a chunk that is no resource.
module _ (decode : String → Option Object) where
  -- The loop of `decodeK8sResources`.
  unfoldable pub decode_chunks : List String → List Object
  decode_chunks [] = []
  decode_chunks (chunk ∷ chunks) =
      let out = decode_chunks chunks in if chunk == "" then out else with_decoded (decode chunk) out

  -- decodeK8sResources
  unfoldable pub decode_k8s_resources : String → List Object
  decode_k8s_resources rendered_yaml = decode_chunks (split_text "---" rendered_yaml)

  -- findAllImages
  unfoldable pub find_all_images : String → List String
  find_all_images chart_yaml =
      sort_texts (non_empty (items (add_objects (decode_k8s_resources chart_yaml) empty)))

  module _ (sv : Semver) (client : ChartClient) where
    -- FindImagesFromChart
    unfoldable pub find_images_from_chart : String → String → String → Result (List String)
    find_images_from_chart values_yaml chart_name chart_version = do
      added ←
          client.add_or_update_chart_repo "airbyte"
            (if chart_is_v2_plus sv chart_version then airbyte_repo_url_v2 else airbyte_repo_url_v1)
      (manifest, hooks) ← client.install_chart_dry_run values_yaml chart_name chart_version
      ok (find_all_images (full_manifest manifest hooks))
