-- ===== src/Common/Text.antt =====
-- What the program uses of Go's `strings` package, over native texts.
-- A text is a sequence of characters; every separator is ASCII, so cutting by characters is cutting
-- by the bytes of UTF-8.
use Prim.Native.Nat.{ℕ, zero, suc, ◌-◌}
use Prim.Native.Char.{Char, code}
use Prim.Native.String.{String, [], ◌∷◌, count}
use mathlib.Core.Path.{◌≡◌, refl, ap, subst, ◌∙◌}
use mathlib.Core.Logic.{◌≢◌, inl, inr}
use mathlib.Core.Bool.{Bool, true, false, ◌&&◌, ◌||◌}
use mathlib.Core.Option.{Option, none, some, some-injective}
use mathlib.Core.List.{List, [], ◌∷◌}
use native.Mathlib.Omega.{arith}
use text.Mathlib.Text.{◌==◌}
use text.Mathlib.TextEquality.{Char-path, eq_iff}
use text.Mathlib.TextLemmas.{cons≢nil}
use abctl.Common.Tests.{if◌then◌else◌, eqb, Bool-cases}

-- Concatenation that computes along its first text, also where the second is unknown.
infixr 65 ◌++◌
abbrev pub ◌++◌ : String → String → String
[] ++ t = t
(c ∷ s) ++ t = c ∷ (s ++ t)

pub append-nil : (s : String) → s ++ "" ≡ s
append-nil [] = refl
append-nil (c ∷ s) = ap (λ (t : String). c ∷ t) (append-nil s)

pub append_assoc : (s t u : String) → (s ++ t) ++ u ≡ s ++ (t ++ u)
append_assoc [] t u = refl
append_assoc (c ∷ s) t u = ap (λ (v : String). c ∷ v) (append_assoc s t u)

-- s == ""
abbrev pub is_empty : String → Bool
is_empty [] = true
is_empty (c ∷ s) = false

-- strings.HasPrefix(s, p)
unfoldable pub has_prefix : String → String → Bool
has_prefix s [] = true
has_prefix [] (d ∷ p) = false
has_prefix (c ∷ s) (d ∷ p) = eqb (code c) (code d) && has_prefix s p

-- strings.HasSuffix(s, p)
unfoldable pub has_suffix : String → String → Bool
has_suffix [] p = "" == p
has_suffix (c ∷ s) p = (c ∷ s) == p || has_suffix s p

-- strings.Contains(s, t)
unfoldable pub has_substring : String → String → Bool
unfolding has_prefix
has_substring [] t = "" == t
has_substring (c ∷ s) t = has_prefix (c ∷ s) t || has_substring s t

-- No character of the text has the code `x`.
abbrev pub Lacks : ℕ → String → Type 0
Lacks x [] = Unit
Lacks x (c ∷ s) = (eqb (code c) x ≡ false) × Lacks x s

abbrev pub AllLack : ℕ → List String → Type 0
AllLack x [] = Unit
AllLack x (s ∷ parts) = Lacks x s × AllLack x parts

abbrev pub prepend : Char → Option (String × String) → Option (String × String)
prepend c none = none
prepend c (some (a, b)) = some (c ∷ a, b)

-- strings.Cut, SplitN(…, 2) and Index at one character: what stands before and after the first.
unfoldable pub cut : ℕ → String → Option (String × String)
cut x [] = none
cut x (c ∷ s) = if eqb (code c) x then some ("", s) else prepend c (cut x s)

-- The same at the last such character, as strings.LastIndex finds it.
abbrev pub cut_last_step : ℕ → Char → String → Option (String × String) → Option (String × String)
cut_last_step x c s (some (a, b)) = some (c ∷ a, b)
cut_last_step x c s none = if eqb (code c) x then some ("", s) else none

unfoldable pub cut_last : ℕ → String → Option (String × String)
cut_last x [] = none
cut_last x (c ∷ s) = cut_last_step x c s (cut_last x s)

abbrev pub push_head : Char → List String → List String
push_head c [] = (c ∷ "") ∷ []
push_head c (s ∷ parts) = (c ∷ s) ∷ parts

-- strings.Split at one character.
unfoldable pub split : ℕ → String → List String
split x [] = "" ∷ []
split x (c ∷ s) = if eqb (code c) x then "" ∷ split x s else push_head c (split x s)

-- strings.Split at a longer separator; the number counts the rest of a separator that was met.
split_text_from : String → ℕ → String → List String
split_text_from sep skip [] = "" ∷ []
split_text_from sep (suc skip) (c ∷ s) = split_text_from sep skip s
split_text_from sep zero (c ∷ s) =
    let met : List String = "" ∷ split_text_from sep (count sep - 1) s in
    let not_met = push_head c (split_text_from sep zero s) in
    if has_prefix (c ∷ s) sep then met else not_met

unfoldable pub split_text : String → String → List String
unfolding split_text_from has_prefix
split_text sep s = split_text_from sep zero s

-- strings.Join with a one-character separator.
unfoldable pub join : Char → List String → String
join x [] = ""
join x (s ∷ []) = s
join x (s ∷ t ∷ parts) = s ++ (x ∷ join x (t ∷ parts))

pub cut-append :
    (x : Char) (a b : String) → Lacks (code x) a → cut (code x) (a ++ (x ∷ b)) ≡ some (a, b)
unfolding cut
cut-append x [] b h = ground arith
cut-append x (c ∷ a) b (p, h) = rw p (rw (cut-append x a b h))

pub cut_of_Lacks : (x : ℕ) (s : String) → Lacks x s → cut x s ≡ none
unfolding cut
cut_of_Lacks x [] h = refl
cut_of_Lacks x (c ∷ s) (p, h) = rw p (rw (cut_of_Lacks x s h))

-- What `prepend` was given, from what it returned.
prepend-eq-some :
    (c : Char) (o : Option (String × String)) {a b : String}
    → prepend c o ≡ some (a, b)
    → (a' : String) × (o ≡ some (a', b)) × (c ∷ a' ≡ a)
prepend-eq-some c none h = cc
prepend-eq-some c (some (a', b')) h = (a', cc, cc)

pub cut_sound :
    (x : Char) (s : String) {a b : String}
    → cut (code x) s ≡ some (a, b)
    → (s ≡ a ++ (x ∷ b)) × Lacks (code x) a
unfolding cut
cut_sound x [] h = cc
cut_sound x (c ∷ s) {a} {b} h = elim (Bool-cases (eqb (code c) (code x))) [
  | inl here ↦
      let e : c ≡ x = Char-path c x (ground arith) in
      let start : ◌≡◌ {A = Option (String × String)} (some ("", s)) (some (a, b)) = ground arith in
      subst (λ (p : String × String). (c ∷ s ≡ p.0 ++ (x ∷ p.1)) × Lacks (code x) p.0)
        (some-injective _ _ start) (ap (λ (d : Char). d ∷ s) e, tt)
  | inr later ↦
      let (a', cut_rest, front) = prepend-eq-some c (cut (code x) s) (ground arith) in
      let (rest, lacks) = cut_sound x s cut_rest in
      subst (λ (t : String). (c ∷ s ≡ t ++ (x ∷ b)) × Lacks (code x) t) front
        (ap (λ (t : String). c ∷ t) rest, (later, lacks))
]

pub split-Lacks : (x : ℕ) (s : String) → Lacks x s → split x s ≡ s ∷ []
unfolding split
split-Lacks x [] h = refl
split-Lacks x (c ∷ s) (p, h) = rw p (rw (split-Lacks x s h))

pub split-append :
    (x : Char) (a b : String)
    → Lacks (code x) a
    → split (code x) (a ++ (x ∷ b)) ≡ a ∷ split (code x) b
unfolding split
split-append x [] b h = ground arith
split-append x (c ∷ a) b (p, h) = rw p (rw (split-append x a b h))

-- Splitting what was joined gives the parts back, if none of them holds the separator.
pub split-join :
    (x : Char) (s : String) (parts : List String)
    → Lacks (code x) s
    → AllLack (code x) parts
    → split (code x) (join x (s ∷ parts)) ≡ s ∷ parts
unfolding join
split-join x s [] h k = split-Lacks (code x) s h
split-join x s (t ∷ parts) h (p, k) =
    split-append x s _ h ∙ ap (λ (l : List String). s ∷ l) (split-join x t parts p k)

pub cut_last_of_Lacks : (x : ℕ) (s : String) → Lacks x s → cut_last x s ≡ none
unfolding cut_last
cut_last_of_Lacks x [] h = refl
cut_last_of_Lacks x (c ∷ s) (p, h) = rw (cut_last_of_Lacks x s h) (rw p refl)

pub cut_last-append :
    (x : Char) (a b : String) → Lacks (code x) b → cut_last (code x) (a ++ (x ∷ b)) ≡ some (a, b)
unfolding cut_last
cut_last-append x [] b h = rw (cut_last_of_Lacks (code x) b h) (ground arith)
cut_last-append x (c ∷ a) b h = rw (cut_last-append x a b h)

pub Lacks-append : (x : ℕ) (s t : String) → Lacks x s → Lacks x t → Lacks x (s ++ t)
Lacks-append x [] t h k = k
Lacks-append x (c ∷ s) t (p, h) k = (p, Lacks-append x s t h k)

-- A test of two different texts is false.
pub eq-ne : (s t : String) → s ≢ t → (s == t) ≡ false
eq-ne s t h = elim (Bool-cases (s == t)) [
  | inl same ↦ absurd (h ((eq_iff s t).0 same))
  | inr other ↦ other
]

pub append-ne : (s t : String) → s ≢ "" → s ++ t ≢ ""
append-ne [] t h = absurd (h refl)
append-ne (c ∷ s) t h = cons≢nil

-- The test that goes with `Lacks`.
abbrev pub lacks : ℕ → String → Bool
lacks x [] = true
lacks x (c ∷ s) = if eqb (code c) x then false else lacks x s

pub Lacks-lacks : (x : ℕ) (s : String) → lacks x s ≡ true → Lacks x s
Lacks-lacks x [] h = tt
Lacks-lacks x (c ∷ s) h = elim (Bool-cases (eqb (code c) x)) [
  | inl same ↦ let wrong = rw same at h in cc
  | inr other ↦ (other, Lacks-lacks x s (rw other at h))
]
