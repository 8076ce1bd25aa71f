-- ===== src/K8s/Images/Tests.antt =====
-- Examples of the theorems on the images, with two nodes.
use abctl.Common.{
  String, true, if◌then◌else◌, ◌==◌, List, [], ◌∷◌, new, Result, ok, err, ◌≡◌, ◌↔◌, refl, arith,
}
use abctl.TextSet.{contains}
use abctl.Effects.{Call, Answer, World, ImageSummary}
use abctl.K8s.Images.{node_refs, refs_of_lines, fields, existing_images}
use abctl.K8s.Images.Counts.{EveryNodeLists, NoRepeats, existing_images_all}

-- Both nodes have the image a, one has b.
abbrev first : List String
first = "REF TYPE" ∷ "sha256:a application" ∷ "sha256:b application" ∷ []

abbrev second : List String
second = "REF TYPE" ∷ "sha256:a application" ∷ []

abbrev outs : List (Result (List String))
outs = ok first ∷ ok second ∷ []

outs-NoRepeats : NoRepeats outs
unfolding node_refs refs_of_lines fields
outs-NoRepeats = ((refl, (refl, tt)), ((refl, tt), tt))

existing_images_all_example :
    (contains (existing_images outs) "sha256:a" ≡ true) ↔ EveryNodeLists "sha256:a" outs
existing_images_all_example = existing_images_all "sha256:a" outs (omega arith) outs-NoRepeats

abbrev summaries : List ImageSummary
summaries =
    record { id = "sha256:a"; repo_tags = "airbyte/a:1" ∷ [] }
    ∷ record { id = "sha256:b"; repo_tags = "airbyte/b:1" ∷ [] }
    ∷ []

abbrev answers : (calls : List Call) → (c : Call) → Result (Answer c)
answers calls (Call.ctr_images_list node) = if node == "one" then ok first else ok second
answers calls (Call.image_list images) = ok summaries
answers calls c = err (new "not found")

abbrev world : World
world = record {
  ask = answers;
  is_not_found = λ e. true;
  unmarshal_secret = λ s. err (new "no secret");
}

abbrev images : List String
images = "airbyte/a:1" ∷ "airbyte/b:1" ∷ []

abbrev nodes : List String
nodes = "one" ∷ "two" ∷ []
