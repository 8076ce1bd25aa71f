-- ===== src/K8s/Restart.antt =====
-- internal/k8s/client.go: the restart of a deployment, and the wait for its pods.
-- wait.PollUntilContextTimeout, with its context and its interval of five seconds, is a parameter: what
-- it makes of a condition.
pub mod Outcome
mod Tests
use abctl.Common.{
  String, ℕ, zero, suc, Bool, true, false, not, ◌&&◌, ◌||◌, if◌then◌else◌, ◌==◌, ◌++◌, List, [],
  ◌∷◌, Option, none, some, Error, new, errorf, Result, ok, err, wrap,
}
use abctl.Common.Dict.{lookup}
use abctl.Effects.{
  Call, World, PodState, Program, return, fail, from_result, with_error, perform, ◌>>=◌, ◌>>◌,
}

abbrev pub restarted_at_name : String
restarted_at_name = "kubectl.kubernetes.io/restartedAt"

-- A map's value, or the empty text for a key that it does not have.
abbrev pub value_of : Option String → String
value_of none = ""
value_of (some v) = v

-- The loop over the conditions: does one say that the pod is not ready?
unfoldable pub is_unready : List (String × String) → Bool
is_unready [] = false
is_unready ((condition, status) ∷ conditions) =
    let rest = is_unready conditions in
    if condition == "Ready" && not (status == "True") then true else rest

-- The loop over the pods, for a restart at `value`.
unfoldable pub are_restarted : String → List PodState → Bool
unfolding lookup is_unready
are_restarted value [] = true
are_restarted value (pod ∷ pods) =
    let rest = are_restarted value pods in
    if not (pod.phase == "Running")
      || not (value_of (lookup restarted_at_name pod.annotations) == value)
    then false
    else if is_unready pod.conditions
    then false
    else rest

module _ (w : World) (marshal_patch : String → String → Result String) where
  -- deploymentPods
  unfoldable pub deployment_pods : String → String → String → String → Program Bool
  unfolding are_restarted
  deployment_pods namespace name label value = do
    pods ←
        with_error (λ e. errorf ("unable to list pods for deployment " ++ (name ++ ": ")) e "")
          (perform w (Call.pod_list_by namespace label))
    return (are_restarted value pods)

  -- deploymentRestart, at the time `value`; the patch is the JSON of the annotation.
  unfoldable pub deployment_restart :
      (Program Bool → Program (Unit {0})) → String → String → String → Program (Unit {0})
  unfolding deployment_pods
  deployment_restart poll namespace name value = do
    data_of ←
        from_result (wrap "unable to marshal raw patch: " (marshal_patch restarted_at_name value))
    label ←
        with_error (λ e. errorf ("unable to patch deployment " ++ (name ++ ": ")) e "")
          (perform w (Call.deployment_patch namespace name data_of))
    with_error (λ e. errorf ("unable to restart deployment " ++ (name ++ ": ")) e "")
        (poll (deployment_pods namespace name label value))
