-- ===== src/K8s/Images/Needed.antt =====
-- The images that are chosen for loading.
use mathlib.Core.List
use abctl.Common.{
  String, Bool, not, any, ◌&&◌, Error, true, List, All, IsWithin, contains as list_contains, Result,
  ok, err, ◌≡◌, ◌⊎◌,
}
use abctl.TextSet.{TextSet, contains}
use abctl.Effects.{ImageSummary}
use abctl.K8s.Images.{existing_images}
use abctl.K8s.Images.Counts.{EveryNodeLists}

-- An image that the set has, or whose tags are all among `tags`.
abbrev Covered : TextSet → List String → ImageSummary → Type 0
Covered existing tags img = (contains existing img.id ≡ true) ⊎ IsWithin img.repo_tags tags

-- The tag is that of an image that the daemon lists and the set lacks.
abbrev pub lacked_tag : TextSet → List ImageSummary → String → Bool
lacked_tag existing found tag =
    any (λ img. list_contains img.repo_tags tag && not (contains existing img.id)) found

-- No image is listed by every node.
abbrev pub NothingShared : List (Result (List String)) → Type 0
NothingShared outs = (ref : String) → ¬ EveryNodeLists ref outs

-- What is chosen, by the daemon's reply: all the images, when no image is listed by every node or the
-- daemon fails; or else the tags of the images that the daemon lists and some node does not.
abbrev pub IsChoice :
    List String → List (Result (List String)) → Result (List ImageSummary) → List String → Type 0
IsChoice images outs reply needed =
    ((needed ≡ images) × (NothingShared outs ⊎ ((e : Error) × (reply ≡ err e))))
    ⊎ ((found : List ImageSummary) × (reply ≡ ok found)
        × All (λ img. EveryNodeLists img.id outs ⊎ IsWithin img.repo_tags needed) found
        × All (λ tag. lacked_tag (existing_images outs) found tag ≡ true) needed)
