-- ===== src/Auth/Flow/Exchange.antt =====
-- Which callbacks lead to a token request.
use abctl.Common.{
  String, Bool-cases, inl, inr, ◌⊎◌, ◌≡◌, ◌≢◌, refl, sym, ◌==◌, List, ◌∷◌, Result-cases, ok,
  ok-injective, eq_iff,
}
use abctl.Effects.{Call, World, and_then}
use abctl.Auth.{read_token_reply}
use abctl.Auth.Flow.{
  Flow, Callback, Event, requested, cancelled, timed_out, handle_callback, await_code,
  exchange_call, exchange_code, authenticate,
}

-- The callback carries the state of this flow, no error, and a code.
abbrev pub IsAccepted : Flow → Callback → Type 0
IsAccepted f r = (r.state ≡ f.state) × (r.error ≡ "") × (r.code ≢ "")

handle_callback-ok :
    (f : Flow) (r : Callback) (code : String)
    → handle_callback f r ≡ ok code
    → IsAccepted f r × (code ≡ r.code)
unfolding handle_callback
handle_callback-ok f r code h = elim (Bool-cases (r.state == f.state)) [
  | inr other ↦ let wrong = rw other at h in cc
  | inl same ↦ elim (Bool-cases (r.error == "")) [
    | inr failed ↦ let wrong = rw (same, failed) at h in cc
    | inl fine ↦ elim (Bool-cases (r.code == "")) [
      | inl missing ↦ let wrong = rw (same, fine, missing) at h in cc
      | inr given ↦ (
        (
          (eq_iff r.state f.state).0 same,
          (eq_iff r.error "").0 fine,
          λ eq. (let wrong = (eq_iff r.code "").1 eq in cc),
        ),
        sym (ok-injective (rw (same, fine, given) at h)),
      )
    ]
  ]
]

await_code-ok :
    (f : Flow) (event : Event) (code : String)
    → await_code f event ≡ ok code
    → (r : Callback) × (event ≡ requested r) × IsAccepted f r × (code ≡ r.code)
unfolding await_code
await_code-ok f (requested r) code h = let p = handle_callback-ok f r code h in (r, refl, p.0, p.1)
await_code-ok f (cancelled e) code h = cc
await_code-ok f timed_out code h = cc

module _ (w : World) where
  -- The calls of an exchange: the token request, and a reading of the clock if it succeeded.
  exchange_code_calls :
      (f : Flow) (code : String) (calls : List Call)
      → ((exchange_code w f code calls).1 ≡ exchange_call f code ∷ calls)
        ⊎ ((exchange_code w f code calls).1 ≡ Call.time_now ∷ exchange_call f code ∷ calls)
  unfolding exchange_code and_then
  exchange_code_calls f code calls =
      elim (Result-cases (read_token_reply (w.ask calls (exchange_call f code)))) [
        | inl (e, bad) ↦ rw bad (inl refl)
        | inr (tokens, good) ↦
            rw good (elim (Result-cases (w.ask (exchange_call f code ∷ calls) Call.time_now)) [
              | inl (e, bad) ↦ rw bad (inr refl)
              | inr (now, read) ↦ rw read (inr refl)
            ])
      ]

  -- A login makes no call at all, or the event was a callback with the state of this flow, no error
  -- and a code, and the first call exchanges that code.
  pub authenticate_calls :
      (f : Flow) (event : Event) (calls : List Call)
      → ((authenticate w f event calls).1 ≡ calls)
        ⊎ ((r : Callback) × (event ≡ requested r)
            × IsAccepted f r
            × (((authenticate w f event calls).1 ≡ exchange_call f r.code ∷ calls)
                ⊎ ((authenticate w f event calls).1
                    ≡ Call.time_now ∷ exchange_call f r.code ∷ calls)))
  unfolding authenticate and_then
  authenticate_calls f event calls = elim (Result-cases (await_code f event)) [
    | inl (e, bad) ↦ rw bad (inl refl)
    | inr (code, good) ↦
        let (r, event_is, accepted, same) = await_code-ok f event code good in
        rw good (inr (r, event_is, accepted, rw (sym same) (exchange_code_calls f code calls)))
  ]
