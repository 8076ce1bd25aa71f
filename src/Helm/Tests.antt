-- ===== src/Helm/Tests.antt =====
-- Examples of the theorems on the images of a chart.
use abctl.Common.{String, not, ◌&&◌, ◌==◌, Option, some, [], ◌∷◌, any, contains, ◌≡◌}
use abctl.Helm.Images.{Object, pod, decode_k8s_resources, find_all_images}
use abctl.Helm.Images.Found.{mentions, contains-find_all_images}

-- A decoder that reads every chunk as a pod of two containers.
abbrev two_containers : String → Option Object
two_containers chunk =
    some (pod (record { init_containers = "busybox" ∷ []; containers = "airbyte/server" ∷ [] }))

contains-find_all_images_example :
    contains (find_all_images two_containers "kind: Pod") "busybox" ≡ (
      not ("busybox" == "")
      && any (mentions "busybox") (decode_k8s_resources two_containers "kind: Pod"))
contains-find_all_images_example = contains-find_all_images two_containers "kind: Pod" "busybox"
