-- ===== src/K8s/Images/Archive.antt =====
-- The archive of images: it is given to every node, and removed.
use mathlib.Core.List.{Mem, mem-cons_self, mem-cons_of_mem}
use abctl.Common.{String, List, [], ◌∷◌, All, ok, ◌≡◌, refl}
use abctl.Effects.{Call, World, and_then}
use abctl.K8s.Images.{save_image_archive, load_onto, load_needed}

module _ (w : World) where
  load_onto-keeps :
      (c : Call) (nodes : List String) (path : String) (calls : List Call)
      → Mem c calls
      → Mem c (load_onto w nodes path calls).1
  unfolding load_onto and_then
  load_onto-keeps c [] path calls made = made
  load_onto-keeps c (node ∷ nodes) path calls made =
      load_onto-keeps c nodes path (Call.load_image_archive node path ∷ calls)
        (mem-cons_of_mem (Call.load_image_archive node path) made)

  load_onto-All :
      (nodes : List String) (path : String) (calls : List Call)
      → ((load_onto w nodes path calls).0 ≡ ok tt)
        × All
            (λ node. Mem (Call.load_image_archive node path) (load_onto w nodes path calls).1)
            nodes
  unfolding load_onto and_then
  load_onto-All [] path calls = (refl, tt)
  load_onto-All (node ∷ nodes) path calls =
      let (fine, rest) = load_onto-All nodes path (Call.load_image_archive node path ∷ calls) in
      (fine, (load_onto-keeps (Call.load_image_archive node path) nodes path _ mem-cons_self, rest))

  -- When the images have been saved and the archive can be opened, loadImages succeeds from there
  -- on, every node is given the archive, whether or not it takes it, and the last thing done is to
  -- remove the archive.
  pub load_needed-All :
      (nodes : List String) (img : String) (images : List String) (calls : List Call)
      (path : String)
      → (save_image_archive w (img ∷ images) calls).0 ≡ ok path
      → w.ask (save_image_archive w (img ∷ images) calls).1 (Call.open_file path) ≡ ok tt
      → ((load_needed w nodes (img ∷ images) calls).0 ≡ ok tt)
        × (earlier : List Call) × ((load_needed w nodes (img ∷ images) calls).1
            ≡ Call.remove_all path ∷ earlier)
        × All (λ node. Mem (Call.load_image_archive node path) earlier) nodes
  unfolding load_needed and_then
  load_needed-All nodes img images calls path saved opened =
      let s = (save_image_archive w (img ∷ images) calls).1 in
      let (fine, given) = load_onto-All nodes path (Call.open_file path ∷ s) in
      rw (saved, opened) (fine, _, refl, given)

  -- Once the images have been saved, the last thing that loadImages does is to remove the archive,
  -- also if it cannot be opened.
  pub load_needed_removes :
      (nodes : List String) (img : String) (images : List String) (calls : List Call)
      (path : String)
      → (save_image_archive w (img ∷ images) calls).0 ≡ ok path
      → (earlier : List Call) × ((load_needed w nodes (img ∷ images) calls).1
          ≡ Call.remove_all path ∷ earlier)
  unfolding load_needed and_then
  load_needed_removes nodes img images calls path saved = rw saved (_, refl)
