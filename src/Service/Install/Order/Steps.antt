-- ===== src/Service/Install/Order/Steps.antt =====
-- The namespace, the volumes and the secrets keep to their stages.
use abctl.Common.{String, arith, List, [], ◌∷◌, Result, ok, err}
use abctl.Effects.{World, Secret, and_then}
use abctl.K8s.Client.{
  namespace_exists, persistent_volume_exists, persistent_volume_claim_exists,
  persistent_volume_create, persistent_volume_claim_create, secret_update_or_create,
  secret_create_or_update,
}
use abctl.Service.{Manager, InstallOpts, docker_auth}
use abctl.Service.Volumes.{
  persistent_volume, new_persistent_volume, persistent_volume_claim, new_persistent_volume_claim,
  handle_docker_secret, create_secret, create_secrets,
}
use abctl.Service.Install.{ensure_namespace, create_volumes, create_all_secrets}
use abctl.Service.Install.Order.{stage, Keeps, both, either}

module _ (w : World) where
  pub ensure_namespace-Keeps : (m : Manager) → Keeps 1 (ensure_namespace w m)
  unfolding ensure_namespace
  ensure_namespace-Keeps m =
      both 1 _ _ (unfold namespace_exists and_then stage in λ calls s. (omega arith, s))
        (λ there. either 1 there _ _ (λ calls s. s) (unfold stage in λ calls s. (omega arith, s)))

  secret_update_or_create-Keeps :
      (secret : Secret) (r : Result Secret) → Keeps 3 (secret_update_or_create w secret r)
  unfolding secret_update_or_create stage
  secret_update_or_create-Keeps secret (ok old) = λ calls s. (omega arith, s)
  secret_update_or_create-Keeps secret (err e) =
      either 3 (w.is_not_found e) _ _ (λ calls s. (omega arith, s)) (λ calls s. s)

  secret_create_or_update-Keeps : (secret : Secret) → Keeps 3 (secret_create_or_update w secret)
  unfolding secret_create_or_update
  secret_create_or_update-Keeps secret =
      both 3 _ _ (unfold stage in λ calls s. (omega arith, s))
        (secret_update_or_create-Keeps secret)

  new_persistent_volume-Keeps :
      (m : Manager) (namespace name : String) → Keeps 2 (new_persistent_volume w m namespace name)
  unfolding new_persistent_volume persistent_volume_create stage
  new_persistent_volume-Keeps m namespace name =
      both 2 _ _ (λ calls s. (omega arith, s))
        (λ made. both 2 _ _ (λ calls s. (omega arith, s)) (λ done calls s. (omega arith, s)))

  persistent_volume-Keeps :
      (m : Manager) (namespace name : String) → Keeps 2 (persistent_volume w m namespace name)
  unfolding persistent_volume
  persistent_volume-Keeps m namespace name =
      both 2 _ _ (unfold persistent_volume_exists and_then stage in λ calls s. (omega arith, s))
        (λ there. either 2 there _ _ (λ calls s. s) (new_persistent_volume-Keeps m namespace name))

  persistent_volume_claim-Keeps :
      (m : Manager) (namespace name volume_name : String)
      → Keeps 2 (persistent_volume_claim w m namespace name volume_name)
  unfolding persistent_volume_claim
  persistent_volume_claim-Keeps m namespace name volume_name =
      both 2 _ _
        (unfold persistent_volume_claim_exists and_then stage in λ calls s. (omega arith, s))
        (λ there.
          either 2 there _ _ (λ calls s. s)
            (unfold new_persistent_volume_claim persistent_volume_claim_create stage in
              λ calls s. (omega arith, s)))

  pub create_volumes-Keeps : (m : Manager) (opts : InstallOpts) → Keeps 2 (create_volumes w m opts)
  unfolding create_volumes
  create_volumes-Keeps m opts =
      both 2 _ _
        (either 2 opts.local_storage _ _
          (both 2 _ _ (persistent_volume-Keeps m _ _) (λ a. persistent_volume_claim-Keeps m _ _ _))
          (both 2 _ _ (persistent_volume-Keeps m _ _) (λ a. persistent_volume_claim-Keeps m _ _ _)))
        (λ made.
          both 2 _ _ (persistent_volume-Keeps m _ _) (λ a. persistent_volume_claim-Keeps m _ _ _))

  create_secret-Keeps : (m : Manager) (file : String) → Keeps 3 (create_secret w m file)
  unfolding create_secret
  create_secret-Keeps m file =
      both 3 _ _ (unfold stage in λ calls s. (omega arith, s))
        (λ raw. both 3 _ _ (λ calls s. s) (λ secret. secret_create_or_update-Keeps _))

  create_secrets-Keeps : (m : Manager) (files : List String) → Keeps 3 (create_secrets w m files)
  unfolding create_secrets
  create_secrets-Keeps m [] = λ calls s. s
  create_secrets-Keeps m (file ∷ files) =
      both 3 _ _ (create_secret-Keeps m file) (λ done. create_secrets-Keeps m files)

  pub create_all_secrets-Keeps :
      (m : Manager) (opts : InstallOpts) → Keeps 3 (create_all_secrets w m opts)
  unfolding create_all_secrets handle_docker_secret
  create_all_secrets-Keeps m opts =
      both 3 _ _
        (either 3 (docker_auth opts) _ _
          (both 3 _ _ (λ calls s. s) (λ body. secret_create_or_update-Keeps _)) (λ calls s. s))
        (λ done. create_secrets-Keeps m opts.secrets)
