-- ===== src/Airbyte/Concurrent/Invariant.antt =====
-- What holds in every state that the goroutines reach.
use abctl.Common.{
  String, ℕ, Bool-cases, true, false, eqb, is_empty, ok, ◌≡◌, refl, sym, ap, ◌∙◌, inl, inr, arith,
}
use abctl.Common.{Result, ok-injective, ◌⊎◌}
use abctl.Http.{Net}
use abctl.Airbyte.{Json, Airbyte}
use abctl.Airbyte.Concurrent.{
  Shared, Pc, done, is_critical, is_needing, token_of, Move, read_some, read_none, lock, found,
  missing, ask, store, give_up, again, System, update, Step, pick, Reach, start, later,
}

-- The result of a call that has returned.
result_of : Pc → Result String
result_of (done r) = r
result_of _ = ok ""

returned : {t u : String} → Pc.done (ok t) ≡ done (ok u) → t ≡ u
unfolding result_of
returned h = ok-injective (ap result_of h)

module _ (net : Net) (json : Json) (a : Airbyte) (Reads : String → String → Type 0) where
  -- What holds of the goroutine that moved, and of each one before, holds of each one after.
  everywhere :
      (P : Pc → Type 0) (pc : ℕ → Pc) (i : ℕ) (q : Pc)
      → P q
      → ((j : ℕ) → P (pc j))
      → (j : ℕ) → P (update net json a Reads pc i q j)
  everywhere P pc i q moved others j = elim (Bool-cases (eqb j i)) [
    | inl same ↦ rw same moved
    | inr other ↦ rw other (others j)
  ]

  -- The goroutines between Lock and Unlock hold the lock, and there is one at most; and a goroutine
  -- that asks for a token does so while there is none.
  pub record Inv (m : Shared) (pc : ℕ → Pc) : Type 0 where
    pub holds : (i : ℕ) → is_critical (pc i) ≡ true → m.locked ≡ true
    pub unique : (i j : ℕ) → is_critical (pc i) ≡ true → is_critical (pc j) ≡ true → i ≡ j
    pub needs : (i : ℕ) → is_needing (pc i) ≡ true → is_empty (token_of m) ≡ true

  Move-Inv :
      {m : Shared} {pc : ℕ → Pc} (inv : Inv m pc) (i : ℕ) {p q : Pc} {m' : Shared}
      → pc i ≡ p
      → Move net json a Reads m p m' q
      → Inv m' (update net json a Reads pc i q)
  Move-Inv {m} {pc} inv i eq (read_some r some_token) = record {
    holds = λ j c. grind (arith, inv.holds);
    unique = λ j k c d. grind (arith, inv.unique);
    needs = λ j n. grind (arith, inv.needs);
  }
  Move-Inv {m} {pc} inv i eq (read_none r no_token) = record {
    holds = λ j c. grind (arith, inv.holds);
    unique = λ j k c d. grind (arith, inv.unique);
    needs = λ j n. grind (arith, inv.needs);
  }
  Move-Inv {m} {pc} inv i eq (lock free) = record {
    holds = λ j c. grind (arith, inv.holds);
    unique = λ j k c d. grind (arith, inv.unique);
    needs = λ j n. grind (arith, inv.needs);
  }
  Move-Inv {m} {pc} inv i eq (found some_token) = record {
    holds = λ j c. grind (arith, inv.holds);
    unique = λ j k c d. grind (arith, inv.unique);
    needs = λ j n. grind (arith, inv.needs);
  }
  Move-Inv {m} {pc} inv i eq (missing no_token) = record {
    holds = λ j c. grind (arith, inv.holds);
    unique = λ j k c d. grind (arith, inv.unique);
    needs = λ j n. grind (arith, inv.needs);
  }
  Move-Inv {m} {pc} inv i eq ask = record {
    holds = λ j c. grind (arith, inv.holds);
    unique = λ j k c d. grind (arith, inv.unique);
    needs = λ j n. grind (arith, inv.needs);
  }
  Move-Inv {m} {pc} inv i eq store = record {
    holds = λ j c. grind (arith, inv.holds);
    unique = λ j k c d. grind (arith, inv.unique);
    needs = λ j n. grind (arith, inv.needs);
  }
  Move-Inv {m} {pc} inv i eq give_up = record {
    holds = λ j c. grind (arith, inv.holds);
    unique = λ j k c d. grind (arith, inv.unique);
    needs = λ j n. grind (arith, inv.needs);
  }
  Move-Inv {m} {pc} inv i eq again = record {
    holds = λ j c. grind (arith, inv.holds);
    unique = λ j k c d. grind (arith, inv.unique);
    needs = λ j n. grind (arith, inv.needs);
  }

  -- A call that has returned a token `t` has returned the token `held`.
  abbrev pub Agrees : String → Pc → Type 0
  Agrees held p = (t : String) → p ≡ done (ok t) → is_empty t ≡ false → held ≡ t

  -- A read outside the lock gives the token that is stored, or none.
  abbrev pub IsWhole : Type 0
  IsWhole = (held t : String) → Reads held t → (t ≡ "") ⊎ (t ≡ held)

  whole-agrees :
      (whole : IsWhole) (held t u : String) → Reads held t → t ≡ u → is_empty u ≡ false → held ≡ u
  whole-agrees whole held t u reads same some_token = elim (whole held t reads) [
    | inl none ↦ cc
    | inr all ↦ sym all ∙ same
  ]

  Move-Agrees :
      (whole : IsWhole) {m : Shared} {pc : ℕ → Pc} (inv : Inv m pc) (i : ℕ) {p q : Pc} {m' : Shared}
      → pc i ≡ p
      → Move net json a Reads m p m' q
      → ((j : ℕ) → Agrees (token_of m) (pc j))
      → (j : ℕ) → Agrees (token_of m') (update net json a Reads pc i q j)
  Move-Agrees whole {m} {pc} inv i eq (read_some {t = u} r some_token) ag =
      everywhere (Agrees (token_of m)) pc i _
        (λ t h n. whole-agrees whole (token_of m) u t r (returned h) n) ag
  Move-Agrees whole {pc} inv i eq (read_none r no_token) ag =
      everywhere (Agrees _) pc i _ (λ t h n. cc) ag
  Move-Agrees whole {pc} inv i eq (lock free) ag = everywhere (Agrees _) pc i _ (λ t h n. cc) ag
  Move-Agrees whole {pc} inv i eq (found some_token) ag =
      everywhere (Agrees _) pc i _ (λ t h n. returned h) ag
  Move-Agrees whole {pc} inv i eq (missing no_token) ag =
      everywhere (Agrees _) pc i _ (λ t h n. cc) ag
  Move-Agrees whole {pc} inv i eq ask ag = everywhere (Agrees _) pc i _ (λ t h n. cc) ag
  Move-Agrees whole {pc} inv i eq (store {t = u}) ag =
      everywhere (Agrees u) pc i _ (λ t h n. returned h)
        (λ j t h n. let same = ag j t h n in let no_token = inv.needs i (ap is_needing eq) in cc)
  Move-Agrees whole {pc} inv i eq give_up ag = everywhere (Agrees _) pc i _ (λ t h n. cc) ag
  Move-Agrees whole {pc} inv i eq again ag = everywhere (Agrees _) pc i _ (λ t h n. cc) ag

  session-stays :
      {m : Shared} {pc : ℕ → Pc} (inv : Inv m pc) {i : ℕ} {p q : Pc} {m' : Shared}
      → is_empty (token_of m) ≡ false
      → pc i ≡ p
      → Move net json a Reads m p m' q
      → m'.session ≡ m.session
  session-stays inv some_token eq (read_some r x) = refl
  session-stays inv some_token eq (read_none r x) = refl
  session-stays inv some_token eq (lock x) = refl
  session-stays inv some_token eq (found x) = refl
  session-stays inv some_token eq (missing x) = refl
  session-stays inv {i} some_token eq ask = let no_token = inv.needs i (ap is_needing eq) in cc
  session-stays inv {i} some_token eq store = let no_token = inv.needs i (ap is_needing eq) in cc
  session-stays inv some_token eq give_up = refl
  session-stays inv some_token eq again = refl

  Reach-Inv :
      (token : String) {s : System net json a Reads}
      → Reach net json a Reads token s
      → Inv s.shared s.pc
  Reach-Inv token start = record { holds = λ j c. cc; unique = λ j k c d. cc; needs = λ j n. cc }
  Reach-Inv token (later {s = s} r (pick i mv)) = Move-Inv (Reach-Inv token r) i refl mv

  Reach-Agrees :
      (whole : IsWhole) (token : String) {s : System net json a Reads}
      → Reach net json a Reads token s
      → (j : ℕ) → Agrees (token_of s.shared) (s.pc j)
  Reach-Agrees whole token start j = λ t h n. cc
  Reach-Agrees whole token (later {s = s} r (pick i mv)) j =
      Move-Agrees whole (Reach-Inv token r) i refl mv (Reach-Agrees whole token r) j

-- In any state that the goroutines reach, all the calls of fetchToken that have returned a token, and
-- not the empty text, have returned the same one, whatever the API answers; provided that a read of
-- the token outside the lock gives the token that is stored, or none.
pub tokens_agree :
    (net : Net) (json : Json) (a : Airbyte) (Reads : String → String → Type 0) (token : String)
    {s : System net json a Reads}
    → IsWhole net json a Reads
    → Reach net json a Reads token s
    → (i j : ℕ) (t u : String) → s.pc i ≡ done (ok t)
    → s.pc j ≡ done (ok u)
    → is_empty t ≡ false
    → is_empty u ≡ false
    → t ≡ u
tokens_agree net json a Reads token whole r i j t u h k some_t some_u =
    let agrees = Reach-Agrees net json a Reads whole token r in
    sym (agrees i t h some_t) ∙ agrees j u k some_u

-- Once a token is stored, no step of any goroutine asks for another or replaces it: a step from a
-- reached state with a token leaves the session as it is, whatever the API answers and whatever a
-- read of the token outside the lock gives.
pub session_stays :
    (net : Net) (json : Json) (a : Airbyte) (Reads : String → String → Type 0) (token : String)
    {s t : System net json a Reads}
    → Reach net json a Reads token s
    → is_empty s.shared.session.token ≡ false
    → Step net json a Reads s t
    → t.shared.session ≡ s.shared.session
session_stays net json a Reads token r some_token (pick i mv) =
    session-stays net json a Reads (Reach-Inv net json a Reads token r) some_token refl mv
