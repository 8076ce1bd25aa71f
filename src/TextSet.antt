-- ===== src/TextSet.antt =====
-- internal/common/set.go at the element type of its users, texts. The map behind a set is the list
-- of its members; the nil map of a zero value is the empty list.
pub mod Members
use mathlib.Core.List
use abctl.Common.{
  String, ℕ, Bool, List, [], ◌∷◌, if◌then◌else◌, contains as list_contains, length, replicate,
}

pub record TextSet : Type 0 where
  pub vals : List String

abbrev pub empty : TextSet
empty = record { vals = [] }

-- Add: writing a key that the map has changes nothing.
unfoldable pub add : String → TextSet → TextSet
add v s = if list_contains s.vals v then s else record { vals = v ∷ s.vals }

-- Contains
unfoldable pub contains : TextSet → String → Bool
contains s v = list_contains s.vals v

-- Len
unfoldable pub len : TextSet → ℕ
len s = length s.vals

-- Items: make([]T, n) is n zero values, and the members are appended behind them.
unfoldable pub items : TextSet → List String
items s = List.◌++◌ (replicate (length s.vals) "") s.vals

-- A loop that adds each text of a list.
unfoldable pub add_all : List String → TextSet → TextSet
unfolding add
add_all [] s = s
add_all (v ∷ vs) s = add_all vs (add v s)
