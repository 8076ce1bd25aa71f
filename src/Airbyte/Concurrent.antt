-- ===== src/Airbyte/Concurrent.antt =====
-- internal/airbyte/api.go: fetchToken with its lock, as it runs in several goroutines, interleaved in
-- any order. A step is one access to what the goroutines share: the token, the lock, the API. The first
-- read of the token is not under the lock, and may race with its write; what such a read can give,
-- from the token that is stored, is a parameter.
pub mod Invariant
use abctl.Common.{
  String, ℕ, Bool, true, false, if◌then◌else◌, eqb, is_empty, List, [], Error, Result, ok, err, ◌≡◌,
}
use abctl.Http.{Request, Net}
use abctl.Airbyte.{Json, Airbyte, Session, new_session, with_token, request_token}

-- What the goroutines share: the session, and whether the lock is held.
pub record Shared : Type 0 where
  pub session : Session
  pub locked : Bool

-- Where a goroutine stands in fetchToken.
pub data Pc : Type 0 where
  idle : Pc  -- before `t := a.token`
  waiting : Pc  -- before `a.mu.Lock()`
  entered : Pc  -- before the second check
  asking : Pc  -- before the request
  answered : Result String → Pc  -- before `a.token = …`, or the return of an error
  done : Result String → Pc  -- after the return

-- Between `a.mu.Lock()` and `a.mu.Unlock()`.
abbrev pub is_critical : Pc → Bool
is_critical entered = true
is_critical asking = true
is_critical (answered r) = true
is_critical _ = false

-- Known to need a token.
abbrev pub is_needing : Pc → Bool
is_needing asking = true
is_needing (answered r) = true
is_needing _ = false

abbrev pub token_of : Shared → String
token_of m = m.session.token

-- `a.token = …`
abbrev pub stored : String → Shared → Shared
stored token m = record m { session = with_token token m.session }

abbrev pub unlocked : Shared → Shared
unlocked m = record m { locked = false }

module _ (net : Net) (json : Json) (a : Airbyte) (Reads : String → String → Type 0) where
  -- The session after the requests of request_token, its token still the one before.
  abbrev pub asked : Shared → Session
  asked m = with_token (token_of m) (request_token net json a m.session).1

  -- One step of one goroutine; `again` is its next call.
  pub data Move (m : Shared) : Pc → Shared → Pc → Type 0 where
    read_some :
        {t : String} → Reads (token_of m) t → is_empty t ≡ false → Move m idle m (done (ok t))
    read_none : {t : String} → Reads (token_of m) t → is_empty t ≡ true → Move m idle m waiting
    lock : m.locked ≡ false → Move m waiting (record m { locked = true }) entered
    found : is_empty (token_of m) ≡ false → Move m entered (unlocked m) (done (ok (token_of m)))
    missing : is_empty (token_of m) ≡ true → Move m entered m asking
    ask :
        Move m asking
          (record m { session = asked m })
          (answered (request_token net json a m.session).0)
    store : {t : String} → Move m (answered (ok t)) (unlocked (stored t m)) (done (ok t))
    give_up : {e : Error} → Move m (answered (err e)) (unlocked m) (done (err e))
    again : {r : Result String} → Move m (done r) m idle

  pub record System : Type 0 where
    pub shared : Shared
    pub pc : ℕ → Pc

  abbrev pub update : (ℕ → Pc) → ℕ → Pc → ℕ → Pc
  update pc i p j = if eqb j i then p else pc j

  -- Any goroutine may move next.
  pub data Step (s : System) : System → Type 0 where
    pick :
        (i : ℕ) {m : Shared} {p : Pc}
        → Move s.shared (s.pc i) m p
        → Step s (record { shared = m; pc = update s.pc i p })

  -- New, with a token or without.
  abbrev pub initial : String → System
  initial token = record {
    shared = record { session = with_token token new_session; locked = false };
    pc = λ i. idle;
  }

  pub data Reach (token : String) : System → Type 0 where
    start : Reach token (initial token)
    later : {s t : System} → Reach token s → Step s t → Reach token t
