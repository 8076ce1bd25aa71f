-- ===== src/Maps.antt =====
-- internal/maps/maps.go: nested maps of YAML values, their construction from dotted settings, and
-- the merge that the Helm values are built with.
-- A Go map is an association list that `put` keeps free of repeated keys (`IsUnique`). A failed
-- type assertion or an index out of range panics in the source, and is `none` here.
pub mod Lookup
pub mod Merging
pub mod Settings
mod Tests
use abctl.Common.{
  String, Option, none, some, Bool, true, false, ◌||◌, List, [], ◌∷◌, ◌==◌, if◌then◌else◌, cut,
  split, Result, ok, ◌>>=◌, wrap, ◌++◌,
}
use mathlib.Core.Option

-- `any` in a map[string]any. `raw` is every other value that the YAML library decodes (a number, a
-- list, a null), by its text.
mutual
  pub data Value : Type 0 where
    str : String → Value
    bool : Bool → Value
    raw : String → Value
    obj : Fields → Value

  pub data Fields : Type 0 where
    end : Fields
    field : String → Value → Fields → Fields

-- m[k]
unfoldable pub get : String → Fields → Option Value
get k end = none
get k (field j v m) = if j == k then some v else get k m

-- m[k] = v
unfoldable pub put : String → Value → Fields → Fields
put k v end = field k v end
put k v (field j w m) = if j == k then field k v m else field j w (put k v m)

-- The conversion of "true" and "false" to Booleans.
unfoldable pub setting_value : String → Value
setting_value value =
    if value == "true" || value == "false" then bool (value == "true") else str value

-- The map that the pointer moves to: a new one for a missing key, a panic for a value that is none.
unfoldable pub child : Option Value → Option Fields
child none = some end
child (some (obj m)) = some m
child (some _) = none

-- The loop over the keys of one setting.
unfoldable pub set_path : List String → Value → Fields → Option Fields
unfolding child
set_path [] value m = some m
set_path (k ∷ []) value m = some (put k value m)
set_path (k ∷ j ∷ keys) value m =
    Option.bind (child (get k m))
      λ p. Option.map (λ p'. put k (obj p') m) (set_path (j ∷ keys) value p)

-- One round of the loop of `FromSlice`. With no "=" the access parts[1] panics.
unfoldable pub add_setting : String → Fields → Option Fields
unfolding set_path setting_value
add_setting s m =
    Option.bind (cut b'=' s) λ (path, value). set_path (split b'.' path) (setting_value value) m

add_settings : List String → Fields → Option Fields
unfolding add_setting
add_settings [] m = some m
add_settings (s ∷ slice) m = Option.bind (add_setting s m) (add_settings slice)

-- FromSlice
unfoldable pub from_slice : List String → Option Fields
unfolding add_settings
from_slice slice = add_settings slice end

-- Merge(base, override). The mutated base is the result.
unfoldable mutual
  unfolding put get

  pub merge : Fields → Fields → Fields
  merge base end = base
  merge base (field k v override) = merge (put k (merge_value (get k base) v) base) override

  pub merge_value : Option Value → Value → Value
  merge_value none v = v
  merge_value (some (obj base_child)) (obj override_child) = obj (merge base_child override_child)
  merge_value (some _) v = v

-- What the package takes from the operating system and the YAML library. A nil map is `none`.
pub record YamlIo : Type 0 where
  pub read_file : String → Result String
  pub unmarshal : String → Result (Option Fields)
  pub marshal : Fields → Result String

abbrev pub or_empty : Option Fields → Fields
or_empty none = end
or_empty (some m) = m

module _ (io : YamlIo) where
  -- FromYAMLFile
  unfoldable pub from_yaml_file : String → Result Fields
  from_yaml_file path = if path == "" then ok end else (do
    raw_text ← wrap ("failed to read file " ++ (path ++ ": ")) (io.read_file path)
    m ← wrap ("failed to unmarshal file " ++ (path ++ ": ")) (io.unmarshal raw_text)
    ok (or_empty m))

  -- ToYAML
  unfoldable pub to_yaml : Fields → Result String
  to_yaml m = wrap "failed to marshal map: " (io.marshal m)

-- The value at the end of a path of keys.
unfoldable pub at : List String → Value → Option Value
at [] v = some v
at (k ∷ keys) (obj m) = elim (get k m) [ none ↦ none | some v ↦ at keys v ]
at (k ∷ keys) v = none
