-- ===== src/Maps/Lookup.antt =====
-- `get` after `put`, and the invariant that no key repeats, at any depth.
use mathlib.Core.Path.{subst}
use mathlib.Core.Option.{some-injective}
use abctl.Common.{
  String, Bool-cases, inl, inr, Option, none, some, List, ◌∷◌, ◌==◌, eq_iff, if◌then◌else◌, ◌≡◌,
  refl, arith,
}
use abctl.Maps.{Value, str, bool, raw, obj, Fields, end, field, get, put, merge, merge_value, at}

pub get-put :
    (k j : String) (v : Value) (m : Fields)
    → get j (put k v m) ≡ (if k == j then some v else get j m)
unfolding get put
get-put k j v end = refl
get-put k j v (field i w m) = ground (arith, eq_iff k j, eq_iff i k, eq_iff i j, get-put k j v m)

-- No key occurs twice in a map or in the maps below it.
abbrev mutual
  pub IsUnique : Fields → Type 0
  IsUnique end = Unit
  IsUnique (field k v m) = (get k m ≡ none) × IsUniqueValue v × IsUnique m

  pub IsUniqueValue : Value → Type 0
  IsUniqueValue (obj m) = IsUnique m
  IsUniqueValue (str s) = Unit
  IsUniqueValue (bool b) = Unit
  IsUniqueValue (raw s) = Unit

pub put-IsUnique :
    (k : String) (v : Value) (m : Fields) → IsUniqueValue v → IsUnique m → IsUnique (put k v m)
unfolding put get
put-IsUnique k v end u h = (refl, u, tt)
put-IsUnique k v (field j w m) u (fresh, uw, h) = elim (Bool-cases (j == k)) [
  | inl same ↦
      let e = (eq_iff j k).0 same in rw same (subst (λ (i : String). get i m ≡ none) e fresh, u, h)
  | inr other ↦
      rw other (ground (arith, get-put k j v m, eq_iff k j, eq_iff j k), uw, put-IsUnique k v m u h)
]

pub get-IsUnique :
    (k : String) {v : Value} (m : Fields) → IsUnique m → get k m ≡ some v → IsUniqueValue v
unfolding get
get-IsUnique k end h e = cc
get-IsUnique k {v} (field j w m) (fresh, uw, h) e = elim (Bool-cases (j == k)) [
  | inl same ↦ subst IsUniqueValue (some-injective w v (rw same at e)) uw
  | inr other ↦ get-IsUnique k m h (rw other at e)
]

mutual
  unfolding merge

  pub merge-IsUnique : (b o : Fields) → IsUnique b → IsUnique o → IsUnique (merge b o)
  merge-IsUnique b end u h = u
  merge-IsUnique b (field k v o) u (fresh, uv, h) =
      merge-IsUnique (put k (merge_value (get k b) v) b) o
        (put-IsUnique k _ b (merge_value-IsUnique (get k b) v (λ w e. get-IsUnique k b u e) uv) u) h

  pub merge_value-IsUnique :
      (b : Option Value) (v : Value)
      → ((w : Value) → b ≡ some w → IsUniqueValue w)
      → IsUniqueValue v
      → IsUniqueValue (merge_value b v)
  merge_value-IsUnique none v u h = h
  merge_value-IsUnique (some (obj m)) (obj o) u h = merge-IsUnique m o (u (obj m) refl) h
  merge_value-IsUnique (some b) v u h = h

-- One step along a path.
module _ (k : String) (keys : List String) (m : Fields) where
  pub at-none : get k m ≡ none → at (k ∷ keys) (obj m) ≡ none
  unfolding at
  at-none e = rw (e, at)

  pub at-some : {v : Value} → get k m ≡ some v → at (k ∷ keys) (obj m) ≡ at keys v
  unfolding at
  at-some e = rw (e, at)

-- A path below a key sees of a map only what the key holds.
pub at-congr :
    (k : String) (keys : List String) (m n : Fields)
    → get k m ≡ get k n
    → at (k ∷ keys) (obj m) ≡ at (k ∷ keys) (obj n)
unfolding at
at-congr k keys m n e = rw (at, e)
