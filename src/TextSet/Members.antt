-- ===== src/TextSet/Members.antt =====
-- Which texts a set and the slice of its items hold.
use abctl.Common.{
  String, ◌+◌, ◌||◌, List, [], ◌∷◌, ◌≡◌, refl, ap, ◌∙◌, arith, ◌==◌, eq_iff, length, replicate,
  length-append, length-replicate, contains as list_contains,
}
use abctl.Common.Sort.{IsDistinct}
use abctl.TextSet.{TextSet, add, contains, len, items, add_all}

pub contains-add : (v w : String) (s : TextSet) → contains (add v s) w ≡ (v == w || contains s w)
unfolding contains add
contains-add v w s = ground (arith, eq_iff v w, contains_of_eq v w s.vals)
  where
    contains_of_eq :
        (v w : String) (xs : List String) → v ≡ w → list_contains xs v ≡ list_contains xs w
    contains_of_eq v w xs e = ap (list_contains xs) e

pub contains-add_all :
    (vs : List String) (w : String) (s : TextSet)
    → contains (add_all vs s) w ≡ (list_contains vs w || contains s w)
unfolding add_all
contains-add_all [] w s = refl
contains-add_all (v ∷ vs) w s = ground (arith, contains-add_all vs w (add v s), contains-add v w s)

pub add-IsDistinct : (v : String) (s : TextSet) → IsDistinct s.vals → IsDistinct (add v s).vals
unfolding add
add-IsDistinct v s h = ground arith

pub add_all-IsDistinct :
    (vs : List String) (s : TextSet) → IsDistinct s.vals → IsDistinct (add_all vs s).vals
unfolding add_all
add_all-IsDistinct [] s h = h
add_all-IsDistinct (v ∷ vs) s h = add_all-IsDistinct vs (add v s) (add-IsDistinct v s h)

-- The slice of items is twice as long as the set.
pub length-items : (s : TextSet) → length (items s) ≡ len s + len s
unfolding items len
length-items s =
    length-append (replicate (length s.vals) "") s.vals
    ∙ omega (arith, length-replicate {A = String} (length s.vals) "")
