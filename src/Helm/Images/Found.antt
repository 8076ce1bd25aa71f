-- ===== src/Helm/Images/Found.antt =====
-- Which images `findAllImages` returns.
use mathlib.Core.List
use mathlib.Core.Path.{subst}
use abctl.Common.{
  String, ℕ, zero, suc, Bool, not, ◌&&◌, ◌||◌, Option, List, [], ◌∷◌, ◌≡◌, refl, sym, ap, ◌∙◌,
  arith, ◌==◌, eq_iff, eq_refl, length, any, contains, contains-append, has_suffix, false,
  replicate,
}
use abctl.Common.Sort.{
  IsSorted, sort_texts-IsSorted, contains-sort_texts, sort_texts-IsDistinct, IsDistinct,
}
use abctl.TextSet.{TextSet, empty, add_all, items}
use abctl.TextSet as Set
use abctl.TextSet.Members.{contains-add_all, add_all-IsDistinct}
use abctl.Helm.Images.{
  Object, PodSpec, pod, job, deployment, stateful_set, config_map, other, pod_images,
  image_variables, object_images, add_objects, non_empty, decode_k8s_resources, find_all_images,
}

contains-non_empty :
    (x : String) (ks : List String) → contains (non_empty ks) x ≡ (not (x == "") && contains ks x)
unfolding non_empty
contains-non_empty x [] = ground arith
contains-non_empty x (k ∷ ks) =
    ground (arith, eq_iff k x, eq_iff k "", eq_iff x "", contains-non_empty x ks)

non_empty-replicate :
    (n : ℕ) (ks : List String) → non_empty (List.◌++◌ (replicate n "") ks) ≡ non_empty ks
unfolding non_empty
non_empty-replicate zero ks = refl
non_empty-replicate (suc n) ks = ground (arith, eq_refl "", non_empty-replicate n ks)

contains-add_objects :
    (objs : List Object) (s : TextSet) (x : String)
    → Set.contains (add_objects objs s) x
      ≡ (any (λ o. contains (object_images o) x) objs || Set.contains s x)
unfolding add_objects
contains-add_objects [] s x = refl
contains-add_objects (o ∷ objs) s x = ground (
  arith,
  contains-add_objects objs (add_all (object_images o) s) x,
  contains-add_all (object_images o) x s,
)

add_objects-IsDistinct :
    (objs : List Object) (s : TextSet) → IsDistinct s.vals → IsDistinct (add_objects objs s).vals
unfolding add_objects
add_objects-IsDistinct [] s h = h
add_objects-IsDistinct (o ∷ objs) s h =
    add_objects-IsDistinct objs _ (add_all-IsDistinct (object_images o) s h)

non_empty-IsDistinct : (ks : List String) → IsDistinct ks → IsDistinct (non_empty ks)
unfolding non_empty
non_empty-IsDistinct [] h = h
non_empty-IsDistinct (k ∷ ks) (p, h) =
    ground (arith, non_empty-IsDistinct ks h, contains-non_empty k ks)

contains-items :
    (s : TextSet) (x : String)
    → contains (non_empty (items s)) x ≡ (not (x == "") && Set.contains s x)
unfolding items Set.contains
contains-items s x =
    ap (λ (l : List String). contains l x) (non_empty-replicate (length s.vals) s.vals)
    ∙ contains-non_empty x s.vals

items-IsDistinct : (s : TextSet) → IsDistinct s.vals → IsDistinct (non_empty (items s))
unfolding items
items-IsDistinct s h =
    subst IsDistinct (sym (non_empty-replicate (length s.vals) s.vals))
      (non_empty-IsDistinct s.vals h)

-- The set that the loop over the objects fills.
image_set : List Object → TextSet
image_set objs = add_objects objs empty

contains-image_set :
    (objs : List Object) (x : String)
    → Set.contains (image_set objs) x ≡ any (λ o. contains (object_images o) x) objs
unfolding image_set
contains-image_set objs x = contains-add_objects objs empty x ∙ or_empty
  where
    or_empty :
        (any (λ o. contains (object_images o) x) objs || Set.contains empty x)
        ≡ any (λ o. contains (object_images o) x) objs
    or_empty = unfold Set.contains in ground arith

-- A container or an init container of the pod has the image.
abbrev pub runs : String → PodSpec → Bool
runs x p = contains p.containers x || contains p.init_containers x

-- The object mentions the image: its pod runs it, or, in a config map named *airbyte-env, a variable
-- named *_IMAGE has it as its value.
unfoldable pub mentions : String → Object → Bool
mentions x (pod p) = runs x p
mentions x (job p) = runs x p
mentions x (deployment p) = runs x p
mentions x (stateful_set p) = runs x p
mentions x (config_map name variables) =
    has_suffix name "airbyte-env" && any (λ e. has_suffix e.0 "_IMAGE" && e.1 == x) variables
mentions x other = false

contains-pod_images : (x : String) (p : PodSpec) → contains (pod_images p) x ≡ runs x p
contains-pod_images x p = ground (arith, contains-append p.init_containers p.containers x)

contains-image_variables :
    (x : String) (variables : List (String × String))
    → contains (image_variables variables) x
      ≡ any (λ e. has_suffix e.0 "_IMAGE" && e.1 == x) variables
unfolding image_variables
contains-image_variables x [] = refl
contains-image_variables x ((k, v) ∷ variables) =
    ground (arith, contains-image_variables x variables)

contains-object_images : (x : String) (o : Object) → contains (object_images o) x ≡ mentions x o
unfolding object_images mentions
contains-object_images x (pod p) = contains-pod_images x p
contains-object_images x (job p) = contains-pod_images x p
contains-object_images x (deployment p) = contains-pod_images x p
contains-object_images x (stateful_set p) = contains-pod_images x p
contains-object_images x (config_map name variables) =
    ground (arith, contains-image_variables x variables)
contains-object_images x other = refl

any-mentions :
    (x : String) (objs : List Object)
    → any (λ o. contains (object_images o) x) objs ≡ any (mentions x) objs
any-mentions x [] = refl
any-mentions x (o ∷ objs) = rw (contains-object_images x o, any-mentions x objs) refl

module _ (decode : String → Option Object) (chart_yaml : String) where
  -- A text is found exactly when it is not empty and an object that the chart decodes to mentions
  -- it: in a container or an init container of its pod, or, in a config map named *airbyte-env, as
  -- the value of a variable named *_IMAGE.
  pub contains-find_all_images :
      (x : String)
      → contains (find_all_images decode chart_yaml) x
        ≡ (not (x == "") && any (mentions x) (decode_k8s_resources decode chart_yaml))
  unfolding find_all_images image_set
  contains-find_all_images x =
      let objs = decode_k8s_resources decode chart_yaml in
      contains-sort_texts x (non_empty (items (image_set objs)))
      ∙ contains-items (image_set objs) x
      ∙ ap (λ (b : Bool). not (x == "") && b) (contains-image_set objs x ∙ any-mentions x objs)

  -- The images come sorted, and none comes twice.
  pub find_all_images-IsSorted :
      IsSorted (find_all_images decode chart_yaml) × IsDistinct (find_all_images decode chart_yaml)
  unfolding find_all_images
  find_all_images-IsSorted = (
    sort_texts-IsSorted _,
    sort_texts-IsDistinct _ (
        items-IsDistinct (add_objects (decode_k8s_resources decode chart_yaml) empty)
          (add_objects-IsDistinct (decode_k8s_resources decode chart_yaml) empty tt)),
  )
