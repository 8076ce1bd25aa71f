-- ===== src/Telemetry/Instance/Events.antt =====
-- The events of a command do not change its outcome.
use abctl.Common.{
  String, ℕ, suc, ◌+◌, ◌≤◌, Bool, true, false, List, [], ◌∷◌, Option, none, some, Bool-cases, ◌||◌,
  ◌⊎◌, inl, inr, is_panic, Error, Result, ok, err, ◌≡◌, refl, arith,
}
use abctl.Effects.{Call, World, Program, and_then}
use abctl.Telemetry.{Libraries, Session}
use abctl.Telemetry.Instance.{send, finish, has_succeeded, wrap_segment}

-- The events posted.
unfoldable pub posts : List Call → ℕ
posts [] = 0
posts (Call.http_post url body ∷ calls) = suc (posts calls)
posts (_ ∷ calls) = posts calls

abbrev pub has_panicked : Result (Unit {0}) → Bool
has_panicked (ok x) = false
has_panicked (err e) = is_panic e

module _ (w : World) (lib : Libraries) (s : Session) where
  send-posts :
      (state event : String) (ee : Option Error) (calls : List Call)
      → posts (send w lib s state event ee calls).1 ≤ posts calls + 1
  unfolding send posts and_then
  send-posts state event ee calls = ground arith

  finish-result :
      (event : String) (started : Bool) (r : Result (Unit {0})) (calls : List Call)
      → (finish w lib s event started r calls).0 ≡ r
  unfolding finish and_then
  finish-result event true (ok done) calls = refl
  finish-result event false (ok done) calls = refl
  finish-result event true (err e) calls = refl
  finish-result event false (err e) calls = elim (Bool-cases (is_panic e)) [
    | inl panics ↦ rw panics refl
    | inr fails ↦ rw fails refl
  ]

  -- The calls of the event that tells of an error.
  abbrev pub told : String → Error → List Call → List Call
  told event e calls = (send w lib s "failed" event (some e) calls).1

  -- An error that is told of, with the events started or not.
  finish-told :
      (event : String) (started : Bool) (e : Error) (calls : List Call)
      → (started || is_panic e) ≡ true
      → (finish w lib s event started (err e) calls).1 ≡ told event e calls
  unfolding finish and_then
  finish-told event started e calls h = rw h refl

  finish-posts :
      (event : String) (started : Bool) (r : Result (Unit {0})) (calls : List Call)
      → posts (finish w lib s event started r calls).1 ≤ posts calls + 1
  unfolding finish and_then
  finish-posts event true (ok done) calls = send-posts "succeeded" event none calls
  finish-posts event false (ok done) calls = omega arith
  finish-posts event true (err e) calls = send-posts "failed" event (some e) calls
  finish-posts event false (err e) calls = elim (Bool-cases (is_panic e)) [
    | inl panics ↦ rw panics (send-posts "failed" event (some e) calls)
    | inr fails ↦ rw fails (omega arith)
  ]

  -- A command that has not panicked, or one whose panic is told of.
  abbrev pub IsTold : String → Result (Unit {0}) × List Call → List Call → Type 0
  IsTold event done after =
      (has_panicked done.0 ≡ false)
      ⊎ ((e : Error) × (done.0 ≡ err e) × (after ≡ told event e done.1))

  finish-IsTold :
      (event : String) (started : Bool) (r : Result (Unit {0})) (calls : List Call)
      → IsTold event (r, calls) (finish w lib s event started r calls).1
  finish-IsTold event started (ok done) calls = inl refl
  finish-IsTold event started (err e) calls = elim (Bool-cases (is_panic e)) [
    | inl panics ↦ inr (e, refl, finish-told event started e calls (ground (arith, panics)))
    | inr fails ↦ inl fails
  ]

  -- Wrap gives what the command gives, a panic as an error, whatever becomes of its events. It posts
  -- at most one event before the command and at most one after it; when the command has panicked, it
  -- tries to post that it failed, also if the first event could not be posted.
  pub wrap_segment_transparent :
      (event : String) (f : Program (Unit {0})) (calls : List Call)
      → (before : List Call) × (posts before ≤ posts calls + 1)
        × ((wrap_segment w lib s event f calls).0 ≡ (f before).0)
        × (posts (wrap_segment w lib s event f calls).1 ≤ posts (f before).1 + 1)
        × IsTold event (f before) (wrap_segment w lib s event f calls).1
  unfolding wrap_segment and_then
  wrap_segment_transparent event f calls =
      let first = send w lib s "started" event none calls in
      let done = f first.1 in
      (
        first.1,
        send-posts "started" event none calls,
        finish-result event (has_succeeded w lib first.0) done.0 done.1,
        finish-posts event (has_succeeded w lib first.0) done.0 done.1,
        finish-IsTold event (has_succeeded w lib first.0) done.0 done.1,
      )
