-- ===== src/Maps/Settings.antt =====
-- What `FromSlice` does with a setting, `path=value`: the value stands at the path, and every path
-- that parts from it is as it was.
use mathlib.Core.Path.{subst}
use mathlib.Core.Option
use abctl.Common.{
  String, false, Bool-cases, inl, inr, Option, none, some, List, [], ◌∷◌, ◌==◌, eq_iff, eq_refl,
  ◌≡◌, refl, sym, ap, ◌∙◌, arith, if◌then◌else◌, ◌++◌, cut, cut-append, cut_of_Lacks, split, join,
  split-join, Lacks, AllLack,
}
use abctl.Maps.{
  Value, str, bool, raw, obj, Fields, end, get, put, at, child, set_path, setting_value,
  add_setting, add_settings, from_slice,
}
use abctl.Maps.Lookup.{
  get-put, at-none, at-some, at-congr, IsUnique, IsUniqueValue, put-IsUnique, get-IsUnique,
}

-- Neither path begins with the other.
abbrev pub Diverges : List String → List String → Type 0
Diverges [] q = ⊥
Diverges (a ∷ p) [] = ⊥
Diverges (a ∷ p) (b ∷ q) = if a == b then Diverges p q else Unit

-- A setting below another key goes through a map, new or found, that is put back.
set_path_inv :
    (k j : String) (keys : List String) (v : Value) (m : Fields) {m' : Fields}
    → set_path (k ∷ j ∷ keys) v m ≡ some m'
    → (p p' : Fields) × (child (get k m) ≡ some p)
      × (set_path (j ∷ keys) v p ≡ some p')
      × (put k (obj p') m ≡ m')
unfolding set_path
set_path_inv k j keys v m e =
    let (p, found, e') = (Option.bind-eq-some_iff _ _).0 e in
    let (p', below, e'') = (Option.map-eq-some_iff _ _).0 e' in (p, p', found, below, e'')

get-put_self : (k : String) (v : Value) (m : Fields) → get k (put k v m) ≡ some v
get-put_self k v m = rw (get-put, eq_refl k) refl

get-put_ne :
    (k j : String) (v : Value) (m : Fields) → (k == j) ≡ false → get j (put k v m) ≡ get j m
get-put_ne k j v m other = rw (get-put, other) refl

-- The value that was set is found at its path.
pub at-set_path_self :
    (k : String) (keys : List String) (v : Value) (m : Fields) {m' : Fields}
    → set_path (k ∷ keys) v m ≡ some m'
    → at (k ∷ keys) (obj m') ≡ some v
at-set_path_self k [] v m {m'} e =
    let put_here : put k v m ≡ m' = Option.some-injective _ _ (unfold set_path in e) in
    at-some k [] m' (ap (get k) (sym put_here) ∙ get-put_self k v m) ∙ (unfold at in refl)
at-set_path_self k (j ∷ keys) v m {m'} e =
    let (p, p', found, below, same) = set_path_inv k j keys v m e in
    at-some k (j ∷ keys) m' (ap (get k) (sym same) ∙ get-put_self k (obj p') m)
    ∙ at-set_path_self j keys v p below

-- What a path finds below a key is what it finds in the map that the pointer moves to.
at-child :
    (k j : String) (q : List String) (m : Fields) {p : Fields} (o : Option Value)
    → get k m ≡ o
    → child o ≡ some p
    → at (j ∷ q) (obj p) ≡ at (k ∷ j ∷ q) (obj m)
unfolding child
at-child k j q m {p} none gone found =
    subst (λ (n : Fields). at (j ∷ q) (obj n) ≡ at (k ∷ j ∷ q) (obj m))
      (Option.some-injective end p found)
      (at-none j q end (unfold get in refl) ∙ sym (at-none k (j ∷ q) m gone))
at-child k j q m {p} (some (obj n)) here found =
    subst (λ (n : Fields). at (j ∷ q) (obj n) ≡ at (k ∷ j ∷ q) (obj m))
      (Option.some-injective n p found) (sym (at-some k (j ∷ q) m here))
at-child k j q m (some (str s)) here found = cc
at-child k j q m (some (bool s)) here found = cc
at-child k j q m (some (raw s)) here found = cc

-- A path that parts from the path of the setting finds what it found before.
pub at-set_path_other :
    (keys q : List String) (v : Value) (m : Fields) {m' : Fields}
    → Diverges keys q
    → set_path keys v m ≡ some m'
    → at q (obj m') ≡ at q (obj m)
at-set_path_other [] q v m d e = absurd d
at-set_path_other (k ∷ keys) [] v m d e = absurd d
at-set_path_other (k ∷ []) (b ∷ q) v m {m'} d e = elim (Bool-cases (k == b)) [
  | inl same ↦ absurd (rw same at d)
  | inr other ↦
      let put_here : put k v m ≡ m' = Option.some-injective _ _ (unfold set_path in e) in
      at-congr b q m' m (ap (get b) (sym put_here) ∙ get-put_ne k b v m other)
]
at-set_path_other (k ∷ j ∷ keys) (b ∷ []) v m {m'} d e = elim (Bool-cases (k == b)) [
  | inl same ↦ absurd (rw same at d)
  | inr other ↦
      let (p, p', found, below, same) = set_path_inv k j keys v m e in
      at-congr b [] m' m (ap (get b) (sym same) ∙ get-put_ne k b (obj p') m other)
]
at-set_path_other (k ∷ j ∷ keys) (b ∷ c ∷ q) v m {m'} d e =
    let (p, p', found, below, same) = set_path_inv k j keys v m e in
    elim (Bool-cases (k == b)) [
      | inl eq ↦
          let ih = at-set_path_other (j ∷ keys) (c ∷ q) v p (rw eq at d) below in
          let k_is_b = (eq_iff k b).0 eq in
          subst (λ (x : String). at (x ∷ c ∷ q) (obj m') ≡ at (x ∷ c ∷ q) (obj m)) k_is_b
            (at-some k (c ∷ q) m' (ap (get k) (sym same) ∙ get-put_self k (obj p') m)
              ∙ ih
              ∙ at-child k c q m (get k m) refl found)
      | inr other ↦
          at-congr b (c ∷ q) m' m (ap (get b) (sym same) ∙ get-put_ne k b (obj p') m other)
    ]

-- A setting is read as its path and its value, whatever signs the value holds.
pub add_setting-join :
    (k : String) (keys : List String) (value : String) (m : Fields)
    → Lacks b'.' k
    → AllLack b'.' keys
    → Lacks b'=' (join "." (k ∷ keys))
    → add_setting (join "." (k ∷ keys) ++ ("=" ++ value)) m
      ≡ set_path (k ∷ keys) (setting_value value) m
unfolding add_setting Option.bind
add_setting-join k keys value m no_dot no_dots no_eq =
    rw (cut-append "=" (join "." (k ∷ keys)) value no_eq)
      (rw (split-join "." k keys no_dot no_dots) refl)

-- A setting with no equals sign panics.
pub add_setting_panics : (s : String) (m : Fields) → Lacks b'=' s → add_setting s m ≡ none
unfolding add_setting Option.bind
add_setting_panics s m h = rw (cut_of_Lacks b'=' s h)

setting_value-IsUnique : (value : String) → IsUniqueValue (setting_value value)
unfolding setting_value
setting_value-IsUnique value = ground arith

child-IsUnique :
    (o : Option Value) {p : Fields}
    → ((v : Value) → o ≡ some v → IsUniqueValue v)
    → child o ≡ some p
    → IsUnique p
unfolding child
child-IsUnique none {p} u e = subst IsUnique (Option.some-injective end p e) tt
child-IsUnique (some (obj n)) {p} u e =
    subst IsUnique (Option.some-injective n p e) (u (obj n) refl)
child-IsUnique (some (str s)) u e = cc
child-IsUnique (some (bool s)) u e = cc
child-IsUnique (some (raw s)) u e = cc

set_path-IsUnique :
    (keys : List String) (v : Value) (m : Fields) {m' : Fields}
    → IsUniqueValue v
    → IsUnique m
    → set_path keys v m ≡ some m'
    → IsUnique m'
set_path-IsUnique [] v m {m'} uv u e =
    subst IsUnique (Option.some-injective m m' (unfold set_path in e)) u
set_path-IsUnique (k ∷ []) v m {m'} uv u e =
    subst IsUnique (Option.some-injective (put k v m) m' (unfold set_path in e))
      (put-IsUnique k v m uv u)
set_path-IsUnique (k ∷ j ∷ keys) v m uv u e =
    let (p, p', found, below, same) = set_path_inv k j keys v m e in
    let up = child-IsUnique (get k m) (λ w here. get-IsUnique k m u here) found in
    subst IsUnique same (put-IsUnique k (obj p') m (set_path-IsUnique (j ∷ keys) v p uv up below) u)

add_setting-IsUnique :
    (s : String) (m : Fields) {m' : Fields} → IsUnique m → add_setting s m ≡ some m' → IsUnique m'
unfolding add_setting
add_setting-IsUnique s m u e =
    let ((path, value), _, e') = (Option.bind-eq-some_iff (cut b'=' s) _).0 e in
    set_path-IsUnique (split b'.' path) (setting_value value) m (setting_value-IsUnique value) u e'

add_settings-IsUnique :
    (slice : List String) (m : Fields) {m' : Fields}
    → IsUnique m
    → add_settings slice m ≡ some m'
    → IsUnique m'
unfolding add_settings
add_settings-IsUnique [] m {m'} u e = subst IsUnique (Option.some-injective m m' e) u
add_settings-IsUnique (s ∷ slice) m u e =
    let (n, step, rest) = (Option.bind-eq-some_iff (add_setting s m) _).0 e in
    add_settings-IsUnique slice n (add_setting-IsUnique s m u step) rest

-- A map that `FromSlice` returns repeats no key, at any depth.
pub from_slice-IsUnique :
    (slice : List String) {m : Fields} → from_slice slice ≡ some m → IsUnique m
unfolding from_slice
from_slice-IsUnique slice e = add_settings-IsUnique slice end tt e

-- If a setting of the keys `k ∷ keys` to `value` does not panic, then the value (a Boolean for
-- "true" and "false") is found at these keys, and a path `q` that parts from them finds what it
-- found before. No key may hold a dot, nor the joined keys an equals sign; the value may hold both.
pub add_setting_sets :
    (k : String) (keys : List String) (value : String) (q : List String) (m m' : Fields)
    → Lacks b'.' k
    → AllLack b'.' keys
    → Lacks b'=' (join "." (k ∷ keys))
    → Diverges (k ∷ keys) q
    → add_setting (join "." (k ∷ keys) ++ ("=" ++ value)) m ≡ some m'
    → (at (k ∷ keys) (obj m') ≡ some (setting_value value)) × (at q (obj m') ≡ at q (obj m))
add_setting_sets k keys value q m m' no_dot no_dots no_eq parts e =
    let set_it = sym (add_setting-join k keys value m no_dot no_dots no_eq) ∙ e in
    (
      at-set_path_self k keys (setting_value value) m set_it,
      at-set_path_other (k ∷ keys) q (setting_value value) m parts set_it,
    )
