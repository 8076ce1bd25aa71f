-- ===== src/K8s/Restart/Tests.antt =====
-- Examples of the theorems on restarts, with a pod that is ready at the second poll.
use abctl.Common.{
  ℕ, zero, suc, Bool, if◌then◌else◌, sym, ap, ◌∙◌, String, true, false, List, [], ◌∷◌, new, Result,
  ok, err, ◌≡◌, refl,
}
use abctl.Common.Dict.{lookup}
use abctl.Effects.{Call, Answer, World, PodState, Program, return, fail, ◌>>=◌, and_then}
use abctl.Effects.Invariants.{>>=-ok}
use abctl.K8s.Restart.{
  restarted_at_name, are_restarted, is_unready, deployment_pods, deployment_restart,
}
use abctl.K8s.Restart.Outcome.{IsListed, deployment_restart_ready, Waits, no_more, not_yet, IsPoll}

abbrev pod_at : String → PodState
pod_at value = record {
  phase = "Running";
  annotations = (restarted_at_name, value) ∷ [];
  conditions = ("Ready", "True") ∷ [];
}

-- The first listing still has the pod of an earlier start.
abbrev answers : (calls : List Call) → (c : Call) → Result (Answer c)
answers calls (Call.deployment_patch namespace name data_of) = ok "app=server"
answers [] (Call.pod_list_by namespace label) = ok (pod_at "old" ∷ [])
answers (Call.deployment_patch n m d ∷ calls) (Call.pod_list_by namespace label) =
    ok (pod_at "old" ∷ [])
answers (d ∷ calls) (Call.pod_list_by namespace label) = ok (pod_at "now" ∷ [])
answers calls c = err (new "not found")

abbrev world : World
world = record {
  ask = answers;
  is_not_found = λ e. true;
  unmarshal_secret = λ s. err (new "no secret");
}

abbrev marshal : String → String → Result String
marshal name value = ok value

-- A wait for at most `n` runs of the condition.
unfoldable poll_times : ℕ → Program Bool → Program (Unit {0})
poll_times zero condition = fail (new "context deadline exceeded")
poll_times (suc n) condition =
    let rest = poll_times n condition in
    condition >>= λ is_done. if is_done then return tt else rest

-- One run, and what follows it.
after_run :
    (n : ℕ) (condition : Program Bool) (s : List Call) (x : Unit {0}) (b : Bool)
    → IsPoll (poll_times n)
    → (condition s).0 ≡ ok b
    → ((if b then return tt else poll_times n condition) (condition s).1).0 ≡ ok x
    → (last : List Call) × Waits condition s last
      × ((condition last).0 ≡ ok true)
      × (((if b then return tt else poll_times n condition) (condition s).1).1 ≡ (condition last).1)
after_run n condition s x true law ran h = (s, no_more, ran, refl)
after_run n condition s x false law ran h =
    let (last, waited, all_of, ends) = law condition (condition s).1 x h in
    (last, not_yet ran waited, all_of, ends)

poll_times-IsPoll : (n : ℕ) → IsPoll (poll_times n)
unfolding poll_times
poll_times-IsPoll zero condition s x h = cc
poll_times-IsPoll (suc n) condition s x h =
    let (b, ran, same) =
      >>=-ok condition (λ b. if b then return tt else poll_times n condition) s h in
    rw same (after_run n condition s x b (poll_times-IsPoll n) ran (ap (λ r. r.0) (sym same) ∙ h))

deployment_restart_ready_example :
    IsListed world marshal "airbyte-abctl" "server" "now" []
      (deployment_restart world marshal (poll_times 3) "airbyte-abctl" "server" "now" []).1
unfolding deployment_restart poll_times deployment_pods are_restarted is_unready lookup and_then
deployment_restart_ready_example =
    deployment_restart_ready world marshal (poll_times 3) "airbyte-abctl" "server" "now" [] tt
      (poll_times-IsPoll 3) refl
