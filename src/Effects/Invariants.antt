-- ===== src/Effects/Invariants.antt =====
-- What holds of the state before a program, and of the state after it.
use abctl.Common.{Bool, true, false, if◌then◌else◌, Error, Result, ok, err, ◌≡◌, refl, arith}
use abctl.Effects.{Stateful, and_then, ◌>>=◌, with_error, from_result, return}

-- `m` takes a state with P to a state with Q.
abbrev pub Takes {σ ℓ κ μ} :
    {S : Type σ} {A : Type ℓ} → (S → Type κ) → (S → Type μ) → Stateful S A → Type (σ ⊔ κ ⊔ μ)
Takes {S} P Q m = (s : S) → P s → Q (m s).1

and_then-Takes {σ ℓ κ μ ν} :
    {S : Type σ} {A : Type ℓ} {B : Type κ} {Q : S → Type μ} {R : S → Type ν} (r : Result A × S)
    (f : A → Stateful S B)
    → Q r.1
    → ((a : A) → Takes Q R (f a))
    → ((s : S) → Q s → R s)
    → R (and_then r f).1
unfolding and_then
and_then-Takes (ok a, s) f q more weaker = more a s q
and_then-Takes (err e, s) f q more weaker = weaker s q

-- A chain: what its first part establishes, the rest takes further, and R is no more than that.
pub chain {σ ℓ κ μ ν ξ} :
    {S : Type σ} {A : Type ℓ} {B : Type κ} {P : S → Type μ} {Q : S → Type ν} {R : S → Type ξ}
    (m : Stateful S A) (f : A → Stateful S B)
    → Takes P Q m
    → ((a : A) → Takes Q R (f a))
    → ((s : S) → Q s → R s)
    → Takes P R (m >>= f)
chain m f first more weaker s p = and_then-Takes (m s) f (first s p) more weaker

-- A chain that keeps an invariant.
pub keep {σ ℓ κ μ} :
    {S : Type σ} {A : Type ℓ} {B : Type κ} {P : S → Type μ} (m : Stateful S A)
    (f : A → Stateful S B)
    → Takes P P m
    → ((a : A) → Takes P P (f a))
    → Takes P P (m >>= f)
keep m f first more = chain m f first more (λ s p. p)

-- A chain that succeeds: its first part does, and so does the rest, from where the first part ends.
and_then-ok {σ ℓ κ} :
    {S : Type σ} {A : Type ℓ} {B : Type κ} (r : Result A × S) (f : A → Stateful S B) {b : B}
    → (and_then r f).0 ≡ ok b
    → (a : A) × (r.0 ≡ ok a) × ((and_then r f) ≡ f a r.1)
unfolding and_then
and_then-ok (ok a, s) f h = (a, refl, refl)
and_then-ok (err e, s) f h = cc

pub >>=-ok {σ ℓ κ} :
    {S : Type σ} {A : Type ℓ} {B : Type κ} (m : Stateful S A) (f : A → Stateful S B) (s : S) {b : B}
    → ((m >>= f) s).0 ≡ ok b
    → (a : A) × ((m s).0 ≡ ok a) × (((m >>= f) s) ≡ f a (m s).1)
>>=-ok m f s h = and_then-ok (m s) f h

-- When `m` succeeds, its result and the state after it have Q.
abbrev pub Ensures {σ ℓ κ} :
    {S : Type σ} {A : Type ℓ} → (A → S → Type κ) → Stateful S A → Type (σ ⊔ ℓ ⊔ κ)
Ensures {S} {A} Q m = (s : S) (a : A) → (m s).0 ≡ ok a → Q a (m s).1

and_then-Ensures {σ ℓ κ μ} :
    {S : Type σ} {A : Type ℓ} {B : Type κ} (Q : B → S → Type μ) (r : Result A × S)
    (f : A → Stateful S B)
    → ((a : A) → Ensures Q (f a))
    → (b : B) → (and_then r f).0 ≡ ok b
    → Q b (and_then r f).1
unfolding and_then
and_then-Ensures Q (ok a, s) f more b h = more a s b h
and_then-Ensures Q (err e, s) f more b h = cc

-- A chain ensures what its end ensures.
pub finally {σ ℓ κ μ} :
    {S : Type σ} {A : Type ℓ} {B : Type κ} (Q : B → S → Type μ) (m : Stateful S A)
    (f : A → Stateful S B)
    → ((a : A) → Ensures Q (f a))
    → Ensures Q (m >>= f)
finally Q m f more s b h = and_then-Ensures Q (m s) f more b h

-- The same, with what is known of the result of the first part.
pub finally_with {σ ℓ κ μ} :
    {S : Type σ} {A : Type ℓ} {B : Type κ} (Q : B → S → Type μ) (m : Stateful S A)
    (f : A → Stateful S B)
    → ((s : S) (a : A) → (m s).0 ≡ ok a → Ensures Q (f a))
    → Ensures Q (m >>= f)
finally_with Q m f more s b h =
    let (a, got, same) = >>=-ok m f s h in rw same (more s a got (m s).1 b (rw same at h))

-- Only the error of a program that fails is changed.
pub with_error-ok {σ ℓ} :
    {S : Type σ} {A : Type ℓ} (f : Error → Error) (m : Stateful S A) (s : S) {a : A}
    → (with_error f m s).0 ≡ ok a
    → (m s).0 ≡ ok a
with_error-ok f m s h = ground arith

pub with_error-Ensures {σ ℓ κ} :
    {S : Type σ} {A : Type ℓ} (Q : A → S → Type κ) (f : Error → Error) (m : Stateful S A)
    → Ensures Q m
    → Ensures Q (with_error f m)
with_error-Ensures Q f m post s a h = post s a (with_error-ok f m s h)

-- A test between two programs.
pub branch {σ ℓ κ μ} :
    {S : Type σ} {A : Type ℓ} (P : S → Type κ) (Q : S → Type μ) (b : Bool) (m k : Stateful S A)
    → Takes P Q m
    → Takes P Q k
    → Takes P Q (if b then m else k)
branch P Q true m k first second s p = first s p
branch P Q false m k first second s p = second s p

pub else-Ensures {σ ℓ κ} :
    {S : Type σ} {A : Type ℓ} (Q : A → S → Type κ) {b : Bool} (m k : Stateful S A)
    → b ≡ false
    → Ensures Q k
    → Ensures Q (if b then m else k)
else-Ensures Q m k is_false post = rw is_false post

-- A pure step changes nothing, and a failed one ends the chain.
pub after_result {σ ℓ κ μ} :
    {S : Type σ} {A : Type ℓ} {B : Type κ} (P : S → Type μ) (r : Result A) (f : A → Stateful S B)
    → ((a : A) → Takes P P (f a))
    → Takes P P (from_result r >>= f)
unfolding and_then
after_result P (ok a) f more s p = more a s p
after_result P (err e) f more s p = p

-- A first part whose result and state are known.
pub after_known {σ ℓ κ μ} :
    {S : Type σ} {A : Type ℓ} {B : Type κ} (P : S → Type μ) (g : Error → Error) (m : Stateful S A)
    (f : A → Stateful S B) (s : S) {a : A} {s' : S}
    → m s ≡ (ok a, s')
    → P (f a s').1
    → P ((with_error g m >>= f) s).1
unfolding and_then
after_known P g m f s known p = rw known p

pub with_error-Takes {σ ℓ κ μ} :
    {S : Type σ} {A : Type ℓ} (P : S → Type κ) (Q : S → Type μ) (g : Error → Error)
    (m : Stateful S A)
    → Takes P Q m
    → Takes P Q (with_error g m)
with_error-Takes P Q g m takes s p = takes s p

-- A pure step before what ensures Q, with the value that the step gives.
pub result-Ensures {σ ℓ κ μ} :
    {S : Type σ} {A : Type ℓ} {B : Type κ} (Q : B → S → Type μ) (r : Result A)
    (f : A → Stateful S B)
    → ((a : A) → r ≡ ok a → Ensures Q (f a))
    → Ensures Q (from_result r >>= f)
unfolding and_then
result-Ensures Q (ok a) f more s b h = more a refl s b h
result-Ensures Q (err e) f more s b h = cc

-- A chain whose first part succeeds goes on with the rest.
pub >>=-known {σ ℓ κ} :
    {S : Type σ} {A : Type ℓ} {B : Type κ} (m : Stateful S A) (f : A → Stateful S B) (s : S) {a : A}
    → (m s).0 ≡ ok a
    → (m >>= f) s ≡ f a (m s).1
unfolding and_then
>>=-known m f s known = rw known refl

-- What a program ensures of the state holds when it is followed by a pure result.
pub then_pure {σ ℓ κ μ} :
    {S : Type σ} {A : Type ℓ} {B : Type κ} (Q : S → Type μ) (m : Stateful S A) (g : A → B)
    → Ensures (λ (a : A) (s : S). Q s) m
    → Ensures (λ (b : B) (s : S). Q s) (m >>= λ a. return (g a))
then_pure Q m g post s b h =
    let (a, got, same) = >>=-ok m (λ a. return (g a)) s h in rw same (post s a got)
