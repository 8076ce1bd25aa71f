-- ===== src/Merge/Docker.antt =====
-- Which images `DockerImages` returns, and in which order.
use abctl.Common.{
  String, Bool, true, Option, none, some, List, [], ◌∷◌, ◌==◌, eq_iff, ◌≡◌, refl, sym, ap, ◌∙◌, ◌↔◌,
  arith, ◌||◌, if◌then◌else◌, map, any, contains,
}
use abctl.Common.Sort.{IsSorted, sort_texts-IsSorted, contains-sort_texts}
use abctl.Common.Dict.{
  lookup, insert, lookup-insert, IsUnique, insert-IsUnique, any-lookup, any_sound,
}
use abctl.Merge.{parse_docker_image, add_images, image_text, docker_images}

abbrev pub or_else : Option String → Option String → Option String
or_else none t = t
or_else (some t) u = some t

-- The tag of the last image of a repository in a list.
pub last_tag : String → List String → Option String
last_tag r [] = none
last_tag r (img ∷ imgs) =
    or_else (last_tag r imgs)
      (if (parse_docker_image img).0 == r then some (parse_docker_image img).1 else none)

lookup-add_images :
    (r : String) (imgs : List String) (m : List (String × String))
    → lookup r (add_images imgs m) ≡ or_else (last_tag r imgs) (lookup r m)
unfolding add_images last_tag
lookup-add_images r [] m = refl
lookup-add_images r (img ∷ imgs) m =
    lookup-add_images r imgs (insert (parse_docker_image img).0 (parse_docker_image img).1 m)
    ∙ ground (arith, lookup-insert (parse_docker_image img).0 r (parse_docker_image img).1 m)

add_images-IsUnique :
    (imgs : List String) (m : List (String × String)) → IsUnique m → IsUnique (add_images imgs m)
unfolding add_images
add_images-IsUnique [] m u = u
add_images-IsUnique (img ∷ imgs) m u =
    add_images-IsUnique imgs _ (insert-IsUnique (parse_docker_image img).0 _ m u)

contains-map :
    (x : String) (m : List (String × String))
    → contains (map image_text m) x ≡ any (λ e. image_text e == x) m
contains-map x [] = refl
contains-map x (e ∷ m) = ap (λ (b : Bool). image_text e == x || b) (contains-map x m)

-- The tag that the merge chooses for a repository: of its last image in b, else of its last in a.
abbrev pub chosen_tag : List String → List String → String → Option String
chosen_tag a b r = or_else (last_tag r b) (last_tag r a)

module _ (a b : List String) where
  abbrev image_map : List (String × String)
  image_map = add_images b (add_images a [])

  lookup-image_map : (r : String) → lookup r image_map ≡ chosen_tag a b r
  lookup-image_map r =
      lookup-add_images r b (add_images a [])
      ∙ ap (or_else (last_tag r b)) (lookup-add_images r a [] ∙ or_else-none (last_tag r a))
    where
      or_else-none : (t : Option String) → or_else t (lookup r []) ≡ t
      or_else-none none = unfold lookup in refl
      or_else-none (some t) = refl

  contains-docker_images :
      (x : String) → contains (docker_images a b) x ≡ any (λ e. image_text e == x) image_map
  unfolding docker_images
  contains-docker_images x =
      contains-sort_texts x (map image_text image_map) ∙ contains-map x image_map

-- The merged list is sorted.
pub docker_images-IsSorted : (a b : List String) → IsSorted (docker_images a b)
unfolding docker_images
docker_images-IsSorted a b = sort_texts-IsSorted (map image_text (add_images b (add_images a [])))

-- The merged list holds an image exactly when it is `repo:tag` for a repository of b or a and the
-- tag of the last image of that repository in b, or in a if b has none.
pub docker_images_iff :
    (a b : List String) (x : String)
    → (contains (docker_images a b) x ≡ true)
      ↔ ((r : String) × (t : String) × (chosen_tag a b r ≡ some t) × (image_text (r, t) ≡ x))
docker_images_iff a b x = (
  λ h.
      let (r, t, found, same) =
        any_sound (λ e. image_text e == x) (image_map a b)
          (add_images-IsUnique b (add_images a []) (add_images-IsUnique a [] tt))
          (sym (contains-docker_images a b x) ∙ h) in
      (r, t, sym (lookup-image_map a b r) ∙ found, (eq_iff (image_text (r, t)) x).0 same),
  λ (r, t, chosen, same).
      contains-docker_images a b x
      ∙ any-lookup (λ e. image_text e == x) r (image_map a b) (lookup-image_map a b r ∙ chosen)
          ((eq_iff (image_text (r, t)) x).1 same),
)
