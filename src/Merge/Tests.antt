-- ===== src/Merge/Tests.antt =====
-- Examples of the theorems on image lists.
use abctl.Common.{String, true, some, List, [], ◌∷◌, ◌≡◌, ◌↔◌, refl, ◌++◌, contains, Lacks-lacks}
use abctl.Merge.{parse_docker_image, image_text, docker_images}
use abctl.Merge.Docker.{chosen_tag, docker_images_iff}
use abctl.Merge.Reference.{parse_docker_image-tagged}

-- The images of a chart, and those given in their place.
abbrev from_chart : List String
from_chart = "airbyte/server:1.0" ∷ "busybox" ∷ []

abbrev patched : List String
patched = "airbyte/server:1.1" ∷ []

docker_images_iff_example :
    (contains (docker_images from_chart patched) "airbyte/server:1.1" ≡ true) ↔ (
      (r : String) × (t : String) × (chosen_tag from_chart patched r ≡ some t)
      × (image_text (r, t) ≡ "airbyte/server:1.1"))
docker_images_iff_example = docker_images_iff from_chart patched "airbyte/server:1.1"

parse_docker_image-tagged_example :
    (parse_docker_image ("localhost:5000" ++ ("/" ++ ("app" ++ (":" ++ "1.2"))))
      ≡ ("localhost:5000" ++ ("/" ++ "app"), "1.2"))
    × (parse_docker_image ("app" ++ (":" ++ "1.2")) ≡ ("app", "1.2"))
parse_docker_image-tagged_example =
    parse_docker_image-tagged "localhost:5000" "app" (Lacks-lacks b'/' "app" refl)
      (Lacks-lacks b':' "app" refl) "1.2" (Lacks-lacks b'/' "1.2" refl)
