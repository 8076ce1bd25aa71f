-- ===== src/K8s/Restart/Outcome.antt =====
-- When a restart succeeds, and what is then true of the pods.
use abctl.Common.{
  String, Bool, true, false, eq_iff, ◌++◌, List, [], ◌∷◌, All, Result, Result-cases, ok,
  ok-injective, wrap, wrap-eq-ok, errorf, ◌≡◌, refl, sym, ap, ◌∙◌, inl, inr, arith,
}
use abctl.Common.Dict.{lookup}
use abctl.Effects.{Call, World, Program, PodState, and_then, perform, from_result, with_error}
use abctl.Effects.Invariants.{>>=-ok, with_error-ok}
use abctl.K8s.Restart.{
  restarted_at_name, value_of, is_unready, are_restarted, deployment_pods, deployment_restart,
}

-- The pod runs, was started by the restart, and no condition says that it is not ready.
pub record IsRestarted (value : String) (pod : PodState) : Type 0 where
  pub running : pod.phase ≡ "Running"
  pub annotated : value_of (lookup restarted_at_name pod.annotations) ≡ value
  pub ready :
      All
        (λ (condition : String × String). (condition.0 ≡ "Ready" → condition.1 ≡ "True"))
        pod.conditions

is_unready-All :
    (conditions : List (String × String))
    → is_unready conditions ≡ false
    → All
        (λ (condition : String × String). (condition.0 ≡ "Ready" → condition.1 ≡ "True"))
        conditions
unfolding is_unready
is_unready-All [] h = tt
is_unready-All ((condition, status) ∷ conditions) h = (
  λ eq. ground (arith, eq_iff condition "Ready", eq_iff status "True"),
  is_unready-All conditions (ground arith),
)

are_restarted-All :
    (value : String) (pods : List PodState)
    → are_restarted value pods ≡ true
    → All (IsRestarted value) pods
unfolding are_restarted
are_restarted-All value [] h = tt
are_restarted-All value (pod ∷ pods) h = (
  record {
    running = ground (arith, eq_iff pod.phase "Running");
    annotated = ground (arith, eq_iff (value_of (lookup restarted_at_name pod.annotations)) value);
    ready = is_unready-All pod.conditions (ground arith);
  },
  are_restarted-All value pods (ground arith),
)

-- The runs of a condition that said no, one after the other, from some calls to later ones.
pub data Waits (condition : Program Bool) : List Call → List Call → Type 0 where
  no_more : {s : List Call} → Waits condition s s
  not_yet :
      {s t : List Call}
      → (condition s).0 ≡ ok false
      → Waits condition (condition s).1 t
      → Waits condition s t

-- The documented behaviour of wait.PollUntilContextTimeout: it returns without an error only when a
-- run of the condition said yes, after runs that said no; that run is the last thing it does.
abbrev pub IsPoll : (Program Bool → Program (Unit {0})) → Type 0
IsPoll poll =
    (condition : Program Bool) (s : List Call) (x : Unit {0})
    → (poll condition s).0 ≡ ok x
    → (last : List Call) × Waits condition s last
      × ((condition last).0 ≡ ok true)
      × ((poll condition s).1 ≡ (condition last).1)

module _ (w : World) (marshal_patch : String → String → Result String) where
  -- From the calls `before` on: the deployment was patched with the annotation of this restart; the
  -- pods under the label selector that the patched deployment has were listed until all were
  -- restarted, and the latest call is that listing.
  pub record IsListed (namespace name value : String) (before calls : List Call) : Type 0 where
    pub data_of : String
    pub label : String
    pub earlier : List Call
    pub pods : List PodState
    pub built : marshal_patch restarted_at_name value ≡ ok data_of
    pub patched : w.ask before (Call.deployment_patch namespace name data_of) ≡ ok label
    pub waited :
        Waits
          (deployment_pods w marshal_patch namespace name label value)
          (Call.deployment_patch namespace name data_of ∷ before)
          earlier
    pub latest : calls ≡ Call.pod_list_by namespace label ∷ earlier
    pub answered : w.ask earlier (Call.pod_list_by namespace label) ≡ ok pods
    pub restarted : All (IsRestarted value) pods

  deployment_pods-ok :
      (namespace name label value : String) (s : List Call)
      → (deployment_pods w marshal_patch namespace name label value s).0 ≡ ok true
      → (pods : List PodState) × (w.ask s (Call.pod_list_by namespace label) ≡ ok pods)
        × (are_restarted value pods ≡ true)
        × ((deployment_pods w marshal_patch namespace name label value s).1
            ≡ Call.pod_list_by namespace label ∷ s)
  unfolding deployment_pods and_then
  deployment_pods-ok namespace name label value s h =
      elim (Result-cases (w.ask s (Call.pod_list_by namespace label))) [
        | inl (e, failed) ↦ let gone = rw failed at h in cc
        | inr (pods, listed) ↦ (pods, listed, ok-injective (rw listed at h), rw listed refl)
      ]

  -- When a restart succeeds, the deployment was patched with the annotation of this restart, and the
  -- latest call listed the pods under the label selector of the patched deployment, after listings
  -- that did not show them restarted: each of them runs, has the annotation of this restart, and has
  -- no condition that says it is not ready.
  pub deployment_restart_ready :
      (poll : Program Bool → Program (Unit {0})) (namespace name value : String) (calls : List Call)
      (x : Unit {0})
      → IsPoll poll
      → (deployment_restart w marshal_patch poll namespace name value calls).0 ≡ ok x
      → IsListed namespace name value calls
          (deployment_restart w marshal_patch poll namespace name value calls).1
  unfolding deployment_restart
  deployment_restart_ready poll namespace name value calls x law h =
      let (data_of, built, same) =
        >>=-ok
          (from_result
            (wrap "unable to marshal raw patch: " (marshal_patch restarted_at_name value)))
          _ calls h in
      let h1 = ap (λ r. r.0) (sym same) ∙ h in
      let patch = Call.deployment_patch namespace name data_of in
      let (label, patched, same1) =
        >>=-ok
          (with_error (λ e. errorf ("unable to patch deployment " ++ (name ++ ": ")) e "")
            (perform w patch))
          _ calls h1 in
      let h2 = ap (λ r. r.0) (sym same1) ∙ h1 in
      let condition = deployment_pods w marshal_patch namespace name label value in
      let (last, waited, all_of, ends) =
        law condition (patch ∷ calls) x (with_error-ok _ (poll condition) (patch ∷ calls) h2) in
      let (pods, listed, restarted, latest) =
        deployment_pods-ok namespace name label value last all_of in
      record {
        data_of = data_of;
        label = label;
        earlier = last;
        pods = pods;
        built = wrap-eq-ok _ _ built;
        patched = with_error-ok _ (perform w patch) calls patched;
        waited = waited;
        latest = ap (λ r. r.1) same ∙ (ap (λ r. r.1) same1 ∙ (ends ∙ latest));
        answered = listed;
        restarted = are_restarted-All value pods restarted;
      }
