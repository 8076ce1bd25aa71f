-- ===== src/Common/Sort.antt =====
-- sort.Strings and slices.Sort on texts: insertion by the order of code points, which is the byte
-- order of UTF-8.
use Prim.Native.Char.{code}
use Prim.Native.String.{String, [], ◌∷◌}
use mathlib.Core.Path.{◌≡◌, refl, ◌∙◌}
use mathlib.Core.Bool.{Bool, true, false, ◌||◌}
use mathlib.Core.List.{List, [], ◌∷◌}
use native.Mathlib.Omega.{arith}
use text.Mathlib.Text.{◌==◌}
use text.Mathlib.TextEquality.{eq_iff}
use abctl.Common.Tests.{ltb, if◌then◌else◌}
use abctl.Common.Lists.{contains}

pub text_le : String → String → Bool
text_le [] t = true
text_le (c ∷ s) [] = false
text_le (c ∷ s) (d ∷ t) =
    if ltb (code c) (code d) then true else if ltb (code d) (code c) then false else text_le s t

pub insert_sorted : String → List String → List String
unfolding text_le
insert_sorted a [] = a ∷ []
insert_sorted a (x ∷ xs) = if text_le a x then a ∷ x ∷ xs else x ∷ insert_sorted a xs

unfoldable pub sort_texts : List String → List String
unfolding insert_sorted
sort_texts [] = []
sort_texts (x ∷ xs) = insert_sorted x (sort_texts xs)

-- Each text is at most the next one.
abbrev pub IsSorted : List String → Type 0
IsSorted [] = Unit
IsSorted (x ∷ []) = Unit
IsSorted (x ∷ y ∷ xs) = (text_le x y ≡ true) × IsSorted (y ∷ xs)

text_le_total : (s t : String) → text_le s t ≡ false → text_le t s ≡ true
unfolding text_le
text_le_total [] t h = cc
text_le_total (c ∷ s) [] h = refl
text_le_total (c ∷ s) (d ∷ t) h = ground (arith, text_le_total s t)

insert_sorted-IsSorted :
    (a : String) (xs : List String) → IsSorted xs → IsSorted (insert_sorted a xs)
unfolding insert_sorted
insert_sorted-IsSorted a [] h = tt
insert_sorted-IsSorted a (x ∷ []) h = ground (arith, text_le_total a x)
insert_sorted-IsSorted a (x ∷ y ∷ xs) (p, h) =
    ground (arith, text_le_total a x, text_le_total a y, insert_sorted-IsSorted a (y ∷ xs) h)

pub sort_texts-IsSorted : (xs : List String) → IsSorted (sort_texts xs)
unfolding sort_texts
sort_texts-IsSorted [] = tt
sort_texts-IsSorted (x ∷ xs) = insert_sorted-IsSorted x (sort_texts xs) (sort_texts-IsSorted xs)

contains-insert_sorted :
    (a b : String) (xs : List String) → contains (insert_sorted a xs) b ≡ (a == b || contains xs b)
unfolding insert_sorted
contains-insert_sorted a b [] = refl
contains-insert_sorted a b (x ∷ xs) = ground (arith, contains-insert_sorted a b xs)

-- Sorting neither adds nor drops a text.
pub contains-sort_texts :
    (b : String) (xs : List String) → contains (sort_texts xs) b ≡ contains xs b
unfolding sort_texts
contains-sort_texts b [] = refl
contains-sort_texts b (x ∷ xs) =
    ground (arith, contains-insert_sorted x b (sort_texts xs), contains-sort_texts b xs)

-- No text occurs twice.
abbrev pub IsDistinct : List String → Type 0
IsDistinct [] = Unit
IsDistinct (x ∷ xs) = (contains xs x ≡ false) × IsDistinct xs

insert_sorted-IsDistinct :
    (a : String) (xs : List String)
    → contains xs a ≡ false
    → IsDistinct xs
    → IsDistinct (insert_sorted a xs)
unfolding insert_sorted
insert_sorted-IsDistinct a [] p h = (p, h)
insert_sorted-IsDistinct a (x ∷ xs) p (q, h) =
    ground
      (arith, insert_sorted-IsDistinct a xs, contains-insert_sorted a x xs, eq_iff a x, eq_iff x a)

pub sort_texts-IsDistinct : (xs : List String) → IsDistinct xs → IsDistinct (sort_texts xs)
unfolding sort_texts
sort_texts-IsDistinct [] h = h
sort_texts-IsDistinct (x ∷ xs) (p, h) =
    insert_sorted-IsDistinct x (sort_texts xs) (contains-sort_texts x xs ∙ p)
      (sort_texts-IsDistinct xs h)
