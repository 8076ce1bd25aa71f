-- ===== src/Cmd/Commands/Done.antt =====
-- What the commands have done when they succeed.
use abctl.Common.{
  String, Bool, true, false, if◌then◌else◌, ◌==◌, is_empty, List, ◌∷◌, errorf, ok, ok-injective,
  ◌≡◌, refl, sym, ap, ◌∙◌, ◌⊎◌, inl, inr,
}
use abctl.Effects.{Call, World, Secret, with_error, return, perform}
use abctl.Effects.Invariants.{Ensures, finally, with_error-Ensures, with_error-ok, >>=-ok}
use abctl.Common.Dict.{insert, lookup-insert}
use abctl.K8s.Client.Secrets.{IsWritten, secret_create_or_update-IsWritten}
use abctl.Cmd.Cluster.Ready.{IsAbsent, exists-IsAbsent, prepared}
use abctl.K8s.Client.{text_at, secret_create_or_update, secret_get}
use abctl.K8s.Cluster.{KindCluster, format_kind_err, delete, exists, provider_cluster}
use abctl.K8s.Restart.Outcome.{IsListed, IsPoll, deployment_restart_ready}
use abctl.Service.{Manager, airbyte_namespace}
use abctl.Cmd.{System}
use abctl.Cmd.Cluster.{Provider}
use abctl.Cmd.Commands.{
  Outside, secret_password, restart, airbyte_auth_secret_name, change_password, update_password,
  uninstall_by_manager, uninstall_found, uninstall_cluster,
}

module _ (w : World) (sys : System) (k : KindCluster) (provider : Provider) (out : Outside) where
  -- The latest call deleted the cluster.
  pub record IsDeleted (calls : List Call) : Type 0 where
    pub earlier : List Call
    pub latest : calls ≡ Call.kind_delete k.name k.kubeconfig ∷ earlier
    pub answered : w.ask earlier (Call.kind_delete k.name k.kubeconfig) ≡ ok tt

  delete-IsDeleted : Ensures (λ (x : Unit {0}) s. IsDeleted s) (delete w k)
  unfolding delete
  delete-IsDeleted s x h = record {
    earlier = s;
    latest = refl;
    answered =
        with_error-ok (λ e. errorf "unable to delete kind cluster: " (format_kind_err w k e) "")
          (perform w (Call.kind_delete k.name k.kubeconfig)) s h;
  }

  found-IsDeleted :
      (m : Manager) (persisted : Bool)
      → Ensures (λ (x : Unit {0}) s. IsDeleted s) (uninstall_found w sys k provider out m persisted)
  unfolding uninstall_found
  found-IsDeleted m persisted =
      let Q = λ (x : Unit {0}) (s : List Call). IsDeleted s in
      finally Q (uninstall_by_manager w sys k provider out m persisted) _
        (λ x. with_error-Ensures Q _ (delete w k) delete-IsDeleted)

  -- When the uninstall command succeeds, the listing of the clusters failed or does not have that
  -- name, or the latest call deleted the cluster, whatever became of the manager's part.
  pub uninstall_cluster_done :
      (m : Manager) (persisted : Bool) (calls : List Call) (x : Unit {0})
      → (uninstall_cluster w sys k provider out m persisted calls).0 ≡ ok x
      → IsAbsent w sys k provider (prepared w sys k provider calls)
        ⊎ IsDeleted (uninstall_cluster w sys k provider out m persisted calls).1
  unfolding uninstall_cluster
  uninstall_cluster_done m persisted calls x h =
      let cluster = >>=-ok (provider_cluster w provider.dir k) _ calls h in
      let s = (provider_cluster w provider.dir k calls).1 in
      let rest = ap (λ r. r.0) (sym cluster.2) ∙ h in
      let there = >>=-ok (exists w k) _ s rest in
      rw (cluster.2, there.2) (by_test s there.0 there.1 (ap (λ r. r.0) (sym there.2) ∙ rest))
    where
      by_test :
          (s : List Call) (b : Bool)
          → (exists w k s).0 ≡ ok b
          → ((if b then uninstall_found w sys k provider out m persisted else return tt)
              (exists w k s).1).0
            ≡ ok x
          → IsAbsent w sys k provider s
            ⊎ IsDeleted
                ((if b then uninstall_found w sys k provider out m persisted else return tt)
                  (exists w k s).1).1
      by_test s true there done = inr (found-IsDeleted m persisted (exists w k s).1 x done)
      by_test s false absent done = inl (exists-IsAbsent w sys k provider s absent)

  abbrev pub with_password : String → Secret → Secret
  with_password password secret = record secret {
    data_of = insert secret_password password secret.data_of;
  }

  -- The secret was written with the password, and then fetched; and then the server was restarted,
  -- up to the listing of its pods that shows them restarted.
  pub record IsChanged (password : String) (secret updated : Secret) (calls : List Call)
      : Type 0 where
    pub stored : List Call
    pub written : IsWritten w (with_password password secret) stored
    pub holds : text_at secret_password (with_password password secret).data_of ≡ password
    pub fetched :
        w.ask stored (Call.secret_get airbyte_namespace airbyte_auth_secret_name) ≡ ok updated
    pub listed :
        IsListed w out.marshal_patch airbyte_namespace "airbyte-abctl-server" out.restarted_at
          (Call.secret_get airbyte_namespace airbyte_auth_secret_name ∷ stored)
          calls

  holds-with_password :
      (password : String) (secret : Secret)
      → text_at secret_password (with_password password secret).data_of ≡ password
  holds-with_password password secret =
      rw (lookup-insert secret_password secret_password password secret.data_of) refl

  change_password-IsChanged :
      (password : String) (secret : Secret) (calls : List Call) (updated : Secret)
      → IsPoll out.poll
      → (change_password w sys k provider out password secret calls).0 ≡ ok updated
      → IsChanged password secret updated
          (change_password w sys k provider out password secret calls).1
  unfolding change_password secret_get restart
  change_password-IsChanged password secret calls updated law h =
      let write = secret_create_or_update w (with_password password secret) in
      let (x, wrote, same) =
        >>=-ok (with_error (λ e. errorf "unable to update the password: " e "") write) _ calls h in
      let stored = (write calls).1 in
      let h1 = ap (λ r. r.0) (sym same) ∙ h in
      let get = Call.secret_get airbyte_namespace airbyte_auth_secret_name in
      let (fetched, got, same1) =
        >>=-ok (secret_get w airbyte_namespace airbyte_auth_secret_name) _ stored h1 in
      let h2 = ap (λ r. r.0) (sym same1) ∙ h1 in
      let server = restart w sys k provider out "airbyte-abctl-server" in
      let (y, ready, same2) =
        >>=-ok (with_error (λ e. errorf "unable to restart airbyte-abctl-server: " e "") server) _
          (get ∷ stored) h2 in
      let h3 = ap (λ r. r.0) (sym same2) ∙ h2 in
      let done =
        deployment_restart_ready w out.marshal_patch out.poll airbyte_namespace
          "airbyte-abctl-server" out.restarted_at (get ∷ stored) y law
          (with_error-ok _ server (get ∷ stored) ready) in
      record {
        stored = stored;
        written =
            secret_create_or_update-IsWritten w (with_password password secret) calls
              (with_error-ok _ write calls wrote);
        holds = holds-with_password password secret;
        fetched = with_error-ok _ (perform w get) stored got ∙ ap ok (ok-injective h3);
        listed = rw (same, same1, same2) done;
      }

  -- If a password is given that is not the secret's, and its update succeeds, then the secret with
  -- that password was written; the result is what was fetched after that; and then the server's
  -- deployment was restarted, until a listing of its pods, the latest call, showed all of them
  -- started by that restart and ready.
  pub update_password_restarts :
      (password : String) (secret : Secret) (calls : List Call) (updated : Secret)
      → IsPoll out.poll
      → is_empty password ≡ false
      → (password == text_at secret_password secret.data_of) ≡ false
      → (update_password w sys k provider out password secret calls).0 ≡ ok updated
      → IsChanged password secret updated
          (update_password w sys k provider out password secret calls).1
  unfolding update_password
  update_password_restarts password secret calls updated law given other h =
      rw (given, other)
        (change_password-IsChanged password secret calls updated law (rw (given, other) at h))
