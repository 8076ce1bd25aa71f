-- ===== src/Common/Errors.antt =====
-- Go's error values, and results that carry one.
-- `errorf` is fmt.Errorf with one %w verb: the text before it, the wrapped error, the text after it.
-- `panicked` is the value of a panic, as an error, that ends a program.
use Prim.Native.String.{String}
use mathlib.Core.Path.{◌≡◌, refl}
use mathlib.Core.Logic.{◌⊎◌, inl, inr}
use abctl.Common.Text.{◌++◌}
use mathlib.Core.Bool.{Bool, true, false}

pub data Error : Type 0 where
  new : String → Error
  errorf : String → Error → String → Error
  panicked : String → Error

-- err.Error()
unfoldable pub message : Error → String
message (new s) = s
message (errorf before e after) = before ++ (message e ++ after)
message (panicked s) = s

abbrev pub is_panic : Error → Bool
is_panic (panicked s) = true
is_panic _ = false

-- What a Go function returns beside its error.
pub data Result {ℓ} (V : Type ℓ) : Type ℓ where
  err : Error → Result V
  ok : V → Result V

-- The next step, unless `err != nil`.
infixl 5 ◌>>=◌
abbrev pub ◌>>=◌ {ℓ κ} : {V : Type ℓ} {W : Type κ} → Result V → (V → Result W) → Result W
err failure >>= next = err failure
ok value >>= next = next value

-- `if err != nil { return …, fmt.Errorf("before: %w", err) }`
abbrev pub wrap {ℓ} : {A : Type ℓ} → String → Result A → Result A
wrap before (ok a) = ok a
wrap before (err e) = err (errorf before e "")

pub Result-cases {ℓ} :
    {A : Type ℓ} (m : Result A) → ((e : Error) × (m ≡ err e)) ⊎ ((a : A) × (m ≡ ok a))
Result-cases (err e) = inl (e, refl)
Result-cases (ok a) = inr (a, refl)

pub ok-injective {ℓ} : {A : Type ℓ} {a b : A} → ok a ≡ ok b → a ≡ b
ok-injective {a} h = cc

-- What a chain of steps that succeeds tells of its first step.
pub >>=-eq-ok {ℓ κ} :
    {V : Type ℓ} {W : Type κ} (first : Result V) (next : V → Result W) {last : W}
    → (first >>= next) ≡ ok last
    → (value : V) × (first ≡ ok value) × (next value ≡ ok last)
>>=-eq-ok (err failure) next h = cc
>>=-eq-ok (ok value) next h = (value, refl, h)

pub wrap-eq-ok {ℓ} :
    {A : Type ℓ} (before : String) (m : Result A) {a : A} → wrap before m ≡ ok a → m ≡ ok a
wrap-eq-ok before (ok a) h = h
wrap-eq-ok before (err e) h = cc
