-- ===== src/Maps/Merging.antt =====
-- What `Merge` computes, key by key and path by path.
use mathlib.Core.Path.{subst}
use mathlib.Core.Option.{some-injective, none-ne-some}
use abctl.Common.{
  String, Bool-cases, inl, inr, Option, Option-cases, none, some, List, [], ◌∷◌, ◌==◌, eq_iff, ◌≡◌,
  refl, sym, ap, ◌∙◌,
}
use abctl.Maps.{Value, str, bool, raw, obj, Fields, end, field, get, put, merge, merge_value, at}
use abctl.Maps.Lookup.{get-put, at-none, at-some, IsUnique, IsUniqueValue, get-IsUnique}

-- What one key holds after a merge, from what it holds in the base and in the override.
abbrev pub merged : Option Value → Option Value → Option Value
merged b none = b
merged b (some v) = some (merge_value b v)

-- At every key, a merge holds the combination of the two values that the maps have there.
pub get-merge :
    (j : String) (b o : Fields) → IsUnique o → get j (merge b o) ≡ merged (get j b) (get j o)
unfolding get merge
get-merge j b end h = refl
get-merge j b (field k v o) (fresh, uv, h) = elim (Bool-cases (k == j)) [
  | inl same ↦
      let e = (eq_iff k j).0 same in
      let fresh_j : get j o ≡ none = subst (λ (i : String). get i o ≡ none) e fresh in
      rw (get-merge j (put k (merge_value (get k b) v) b) o h) (
        rw (fresh_j, get-put k j (merge_value (get k b) v) b, same)
          (subst (λ (i : String). some (merge_value (get k b) v) ≡ some (merge_value (get i b) v)) e
            refl))
  | inr other ↦
      rw (get-merge j (put k (merge_value (get k b) v) b) o h)
        (rw (get-put k j (merge_value (get k b) v) b, other) refl)
]

-- Two maps that hold the same at every key, though their entries may be listed in another order.
abbrev pub SameEntries : Fields → Fields → Type 0
SameEntries m n = (k : String) → get k m ≡ get k n

-- Go ranges over a map in no fixed order: the merge does not depend on it.
pub merge_order :
    (b o o' : Fields)
    → IsUnique o
    → IsUnique o'
    → SameEntries o o'
    → SameEntries (merge b o) (merge b o')
merge_order b o o' h h' same k = rw (get-merge k b o h, get-merge k b o' h', same k) refl

-- A value that is no map.
abbrev pub IsLeaf : Value → Type 0
IsLeaf (obj m) = ⊥
IsLeaf (str s) = Unit
IsLeaf (bool b) = Unit
IsLeaf (raw s) = Unit

merge_value-leaf : (b : Option Value) (v : Value) → IsLeaf v → merge_value b v ≡ v
unfolding merge
merge_value-leaf none v h = refl
merge_value-leaf (some (obj m)) (str s) h = refl
merge_value-leaf (some (obj m)) (bool x) h = refl
merge_value-leaf (some (obj m)) (raw s) h = refl
merge_value-leaf (some (obj m)) (obj o) h = elim h [ ]
merge_value-leaf (some b) v h = refl

-- The path leaves the value at a key that a map on the way does not have.
abbrev pub Misses : List String → Value → Type 0
Misses [] v = ⊥
Misses (k ∷ keys) (obj m) = elim (get k m) [ none ↦ Unit | some v ↦ Misses keys v ]
Misses (k ∷ keys) (str s) = ⊥
Misses (k ∷ keys) (bool b) = ⊥
Misses (k ∷ keys) (raw s) = ⊥

module _ (k : String) (keys : List String) (m : Fields) where
  Misses-some : {v : Value} → get k m ≡ some v → Misses (k ∷ keys) (obj m) → Misses keys v
  Misses-some e h = rw (e, Misses) at h

at-Misses : (keys : List String) (v : Value) → Misses keys v → at keys v ≡ none
at-Misses [] v h = elim h [ ]
at-Misses (k ∷ keys) (obj m) h = elim (Option-cases (get k m)) [
  | inl gone ↦ at-none k keys m gone
  | inr (w, e) ↦ at-some k keys m e ∙ at-Misses keys w (Misses-some k keys m e h)
]
at-Misses (k ∷ keys) (str s) h = elim h [ ]
at-Misses (k ∷ keys) (bool b) h = elim h [ ]
at-Misses (k ∷ keys) (raw s) h = elim h [ ]

module _ (k : String) (keys : List String) (b o : Fields) (u : IsUnique o) where
  at-merge_none : get k o ≡ none → at (k ∷ keys) (obj (merge b o)) ≡ at (k ∷ keys) (obj b)
  unfolding at
  at-merge_none gone = rw (at, get-merge k b o u, gone)

  at-merge-some :
      {w : Value}
      → get k o ≡ some w
      → at (k ∷ keys) (obj (merge b o)) ≡ at keys (merge_value (get k b) w)
  at-merge-some here = at-some k keys (merge b o) (get-merge k b o u ∙ ap (merged (get k b)) here)

at_value-leaf :
    (keys : List String) (b : Option Value) (o : Value) {v : Value}
    → IsUniqueValue o
    → IsLeaf v
    → at keys o ≡ some v
    → at keys (merge_value b o) ≡ some v
unfolding merge
at_value-leaf [] b o {v} u leaf e =
    let same = some-injective o v (unfold at in e) in
    subst (λ (x : Value). at [] (merge_value b x) ≡ some v) (sym same)
      (unfold at in ap (λ (x : Value). some x) (merge_value-leaf b v leaf))
at_value-leaf (k ∷ keys) none (obj o) u leaf e = e
at_value-leaf (k ∷ keys) (some (obj b)) (obj o) {v} u leaf e = elim (Option-cases (get k o)) [
  | inl gone ↦ absurd (none-ne-some v (sym (at-none k keys o gone) ∙ e))
  | inr (w, here) ↦
      at-merge-some k keys b o u here
      ∙ at_value-leaf keys (get k b) w (get-IsUnique k o u here) leaf
          (sym (at-some k keys o here) ∙ e)
]
at_value-leaf (k ∷ keys) (some (str s)) (obj o) u leaf e = e
at_value-leaf (k ∷ keys) (some (bool s)) (obj o) u leaf e = e
at_value-leaf (k ∷ keys) (some (raw s)) (obj o) u leaf e = e
at_value-leaf (k ∷ keys) b (str s) u leaf e = unfold at in cc
at_value-leaf (k ∷ keys) b (bool s) u leaf e = unfold at in cc
at_value-leaf (k ∷ keys) b (raw s) u leaf e = unfold at in cc

at_value-missing :
    (keys : List String) (b o : Value)
    → IsUniqueValue o
    → Misses keys o
    → at keys (merge_value (some b) o) ≡ at keys b
unfolding merge
at_value-missing [] b o u h = elim h [ ]
at_value-missing (k ∷ keys) (obj b) (obj o) u h = elim (Option-cases (get k o)) [
  | inl gone ↦ at-merge_none k keys b o u gone
  | inr (w, here) ↦
      let missed = Misses-some k keys o here h in
      at-merge-some k keys b o u here ∙ elim (Option-cases (get k b)) [
        | inl fresh ↦ rw fresh (at-Misses keys w missed ∙ sym (at-none k keys b fresh))
        | inr (x, there) ↦ rw there (
            at_value-missing keys x w (get-IsUnique k o u here) missed
            ∙ sym (at-some k keys b there))
      ]
]
at_value-missing (k ∷ keys) (str s) (obj o) u h = unfold at in at-Misses (k ∷ keys) (obj o) h
at_value-missing (k ∷ keys) (bool s) (obj o) u h = unfold at in at-Misses (k ∷ keys) (obj o) h
at_value-missing (k ∷ keys) (raw s) (obj o) u h = unfold at in at-Misses (k ∷ keys) (obj o) h
at_value-missing (k ∷ keys) b (str s) u h = elim h [ ]
at_value-missing (k ∷ keys) b (bool s) u h = elim h [ ]
at_value-missing (k ∷ keys) b (raw s) u h = elim h [ ]

-- Where the override has a value that is no map, at any depth, the merge has that value.
pub at-merge_override :
    (keys : List String) (b o : Fields) (v : Value)
    → IsUnique o
    → IsLeaf v
    → at keys (obj o) ≡ some v
    → at keys (obj (merge b o)) ≡ some v
unfolding merge
at-merge_override keys b o v u leaf e = at_value-leaf keys (some (obj b)) (obj o) u leaf e

-- Where the path leaves the override at a missing key, the merge has what the base has there.
pub at-merge_base :
    (keys : List String) (b o : Fields)
    → IsUnique o
    → Misses keys (obj o)
    → at keys (obj (merge b o)) ≡ at keys (obj b)
unfolding merge
at-merge_base keys b o u h = at_value-missing keys (obj b) (obj o) u h
