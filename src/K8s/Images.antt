-- ===== src/K8s/Images.antt =====
-- internal/k8s/load_images.go: the images of the chart are pulled, and those that some node lacks
-- are saved to an archive and loaded onto the nodes. A node is its name. The pulls, which run in
-- parallel and of which none uses another, stand in the order of the images.
pub mod Counts
pub mod Needed
pub mod Archive
mod Tests
use Prim.Native.String.{[], ◌∷◌}
use mathlib.Core.List
use abctl.Common.{
  ℕ, zero, suc, ◌+◌, Char, code, String, ◌++◌, Bool, false, ◌||◌, ◌&&◌, leb, eqb, if◌then◌else◌,
  is_empty, Option, none, some, List, [], ◌∷◌, length, Error, errorf, Result, ok, err, ◌==◌,
}
use abctl.Common.Dict.{lookup, insert}
use abctl.TextSet.{TextSet, empty, add, contains, len}
use abctl.Effects.{
  Call, World, ImageSummary, Program, return, try, from_result, with_error, perform, ◌>>=◌, ◌>>◌,
}

-- unicode.IsSpace
abbrev pub is_space : Char → Bool
is_space c =
    let n = code c in
    (leb 9 n && leb n 13)
    || eqb n 32
    || eqb n 0x85
    || eqb n 0xa0
    || eqb n 0x1680
    || (leb 0x2000 n && leb n 0x200a)
    || eqb n 0x2028
    || eqb n 0x2029
    || eqb n 0x202f
    || eqb n 0x205f
    || eqb n 0x3000

-- A word that has ended, if it has a character.
abbrev pub end_word : String → List String → List String
end_word [] words = words
end_word (c ∷ w) words = (c ∷ w) ∷ words

-- The word at the start of a text, and the words after it.
abbrev pub words_from : String → String × List String
words_from [] = ("", [])
words_from (c ∷ s) =
    let rest = words_from s in
    if is_space c then ("", end_word rest.0 rest.1) else (c ∷ rest.0, rest.1)

-- strings.Fields
unfoldable pub fields : String → List String
fields s = let all = words_from s in end_word all.0 all.1

-- The first field of each line that has one.
unfoldable pub refs_of_lines : List String → List String
unfolding fields
refs_of_lines [] = []
refs_of_lines (line ∷ lines) = add_first (fields line) (refs_of_lines lines)
  where
    add_first : List String → List String → List String
    add_first [] refs = refs
    add_first (ref ∷ more) refs = ref ∷ refs

-- len(header) < 1 || header[0] != "REF", negated
abbrev pub is_ref_header : List String → Bool
is_ref_header [] = false
is_ref_header (first ∷ more) = first == "REF"

-- The images that a node's listing names: none if the listing failed, is empty or has another
-- header.
unfoldable pub node_refs : Result (List String) → List String
unfolding refs_of_lines fields
node_refs (err e) = []
node_refs (ok []) = []
node_refs (ok (header ∷ lines)) =
    let refs = refs_of_lines lines in if is_ref_header (fields header) then refs else []

abbrev pub or_zero : Option ℕ → ℕ
or_zero none = 0
or_zero (some n) = n

-- existingByNode[ref] += 1
unfoldable pub count_ref : String → List (String × ℕ) → List (String × ℕ)
unfolding lookup insert
count_ref ref counts = insert ref (or_zero (lookup ref counts) + 1) counts

unfoldable pub count_refs : List String → List (String × ℕ) → List (String × ℕ)
unfolding count_ref
count_refs [] counts = counts
count_refs (ref ∷ refs) counts = count_refs refs (count_ref ref counts)

unfoldable pub count_nodes : List (Result (List String)) → List (String × ℕ) → List (String × ℕ)
unfolding count_refs node_refs
count_nodes [] counts = counts
count_nodes (out ∷ outs) counts = count_nodes outs (count_refs (node_refs out) counts)

-- The images that were counted `n` times.
unfoldable pub counted : ℕ → List (String × ℕ) → TextSet
unfolding add
counted n [] = empty
counted n ((ref, count) ∷ counts) =
    let rest = counted n counts in if eqb count n then add ref rest else rest

-- getExistingImageDigests, from the listings of the nodes.
unfoldable pub existing_images : List (Result (List String)) → TextSet
unfolding count_nodes counted
existing_images outs = counted (length outs) (count_nodes outs [])

-- The tags of the images that are not among those.
unfoldable pub missing_tags : TextSet → List ImageSummary → List String
unfolding contains
missing_tags existing [] = []
missing_tags existing (img ∷ images) =
    let rest = missing_tags existing images in
    if contains existing img.id then rest else List.◌++◌ img.repo_tags rest

module _ (w : World) where
  unfoldable pub pull_all : List String → Program (Unit {0})
  pull_all [] = return tt
  pull_all (img ∷ images) = try (perform w (Call.image_pull img)) >> pull_all images

  -- The listings of the nodes, a failed one as its error.
  unfoldable pub listings : List String → Program (List (Result (List String)))
  listings [] = return []
  listings (node ∷ nodes) = do
    out ← try (perform w (Call.ctr_images_list node))
    outs ← listings nodes
    return (out ∷ outs)

  -- All the images, if their digests cannot be listed.
  abbrev pub needed_of : List String → TextSet → Result (List ImageSummary) → List String
  needed_of images existing (err e) = images
  needed_of images existing (ok found) = missing_tags existing found

  unfoldable pub determine_images_for_loading : List String → List String → Program (List String)
  unfolding listings existing_images missing_tags len
  determine_images_for_loading images nodes = do
    outs ← listings nodes
    if eqb (len (existing_images outs)) 0
        then return images
        else try (perform w (Call.image_list images)) >>= λ found.
            return (needed_of images (existing_images outs) found)

  -- saveImageArchive; the archive's name in its directory is joined by filepath.Join.
  unfoldable pub save_image_archive : List String → Program String
  save_image_archive images = do
    dir ← perform w (Call.temp_dir "images-tar-")
    perform w (Call.create_file (dir ++ "/images.tar"))
    perform w (Call.image_save images)
    perform w (Call.copy_image (dir ++ "/images.tar"))
    return (dir ++ "/images.tar")

  -- The loop over the nodes, which drops their errors.
  unfoldable pub load_onto : List String → String → Program (Unit {0})
  load_onto [] path = return tt
  load_onto (node ∷ nodes) path =
      try (perform w (Call.load_image_archive node path)) >> load_onto nodes path

  abbrev pub open_and_load : List String → String → Program (Unit {0})
  open_and_load nodes path =
      with_error (λ e. errorf "failed to open image archive: " e "")
        (perform w (Call.open_file path))
      >> load_onto nodes path

  -- What follows the choice of the images; the archive is removed at the return, whatever it gives.
  unfoldable pub load_needed : List String → List String → Program (Unit {0})
  unfolding save_image_archive load_onto
  load_needed nodes [] = return tt
  load_needed nodes (img ∷ images) = do
    path ←
        with_error (λ e. errorf "failed to save image archive: " e "")
          (save_image_archive (img ∷ images))
    loaded ← try (open_and_load nodes path)
    try (perform w (Call.remove_all path))
    from_result loaded

  unfoldable pub load_images : List String → List String → Program (Unit {0})
  unfolding pull_all determine_images_for_loading load_needed
  load_images nodes images = do
    pull_all images
    perform w Call.context_err
    needed ← determine_images_for_loading images nodes
    load_needed nodes needed
