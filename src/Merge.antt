-- ===== src/Merge.antt =====
-- internal/merge/docker.go: two lists of Docker images merged by repository.
pub mod Docker
pub mod Reference
mod Tests
use abctl.Common.{
  String, Option, none, some, List, [], ◌∷◌, ◌==◌, if◌then◌else◌, ◌++◌, cut, cut_last, map,
}
use abctl.Common.Sort.{sort_texts}
use abctl.Common.Dict.{insert}

-- The name of an image, up to its last slash and with it, and the rest.
abbrev pub name_parts : String → Option (String × String) → String × String
name_parts image none = ("", image)
name_parts image (some (dir, name)) = (dir ++ "/", name)

abbrev pub repo_and_tag : String → String → Option (String × String) → String × String
repo_and_tag image dir none = (image, "latest")
repo_and_tag image dir (some (name, tag)) = (dir ++ name, tag)

-- parseDockerImage
unfoldable pub parse_docker_image : String → String × String
parse_docker_image image =
    let (dir, rest) = name_parts image (cut_last b'/' image) in
    repo_and_tag image dir (cut b':' rest)

-- The two loops that fill the map: later images replace earlier ones of their repository.
unfoldable pub add_images : List String → List (String × String) → List (String × String)
unfolding parse_docker_image
add_images [] image_map = image_map
add_images (img ∷ imgs) image_map =
    let (repo, tag) = parse_docker_image img in add_images imgs (insert repo tag image_map)

-- fmt.Sprintf("%s:%s", repo, tag)
abbrev pub image_text : String × String → String
image_text (repo, tag) = repo ++ (":" ++ tag)

-- DockerImages. The order in which Go ranges over the map is lost by the sort.
unfoldable pub docker_images : List String → List String → List String
unfolding add_images
docker_images a b = sort_texts (map image_text (add_images b (add_images a [])))
