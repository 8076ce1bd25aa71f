-- ===== src/K8s/Tests.antt =====
-- Examples of the theorems on the cluster's objects.
use Prim.Native.Nat.{Ordering}
use abctl.Common.{
  true, ◌||◌, ◌==◌, List, [], ◌∷◌, map, ◌≡◌, refl, contains, Error, new, Result, ok, err,
}
use abctl.Helm.Semver.{Semver}
use abctl.Effects.{Call, Answer, World, Secret, and_then}
use abctl.K8s.Ingress.{ingress}
use abctl.K8s.Ingress.Rules.{ingress_hosts_iff}
use abctl.K8s.Client.{secret_create_or_update, secret_update_or_create}
use abctl.K8s.Client.Secrets.{IsWritten, secret_create_or_update-IsWritten}

abbrev flat : Semver
flat = record { compare = λ v w. Ordering.eq; is_valid = λ v. true; prerelease = λ v. "" }

ingress_hosts_iff_example :
    (contains (map (λ r. r.host) (ingress flat "1.8.0" ("airbyte.example" ∷ [])).rules) "localhost"
      ≡ ((contains ("airbyte.example" ∷ []) "localhost" || "localhost" == "localhost")
          || "host.docker.internal" == "localhost"))
    × (map (λ r. r.host) (ingress flat "1.8.0" []).rules ≡ "" ∷ [])
ingress_hosts_iff_example = ingress_hosts_iff flat "1.8.0" "airbyte.example" "localhost" []

-- A cluster in which no secret exists and every creation succeeds.
abbrev missing : Error
missing = new "not found"

abbrev answers : (calls : List Call) → (c : Call) → Result (Answer c)
answers calls (Call.secret_create s) = ok tt
answers calls c = err missing

abbrev empty_cluster : World
empty_cluster = record {
  ask = answers;
  is_not_found = λ e. true;
  unmarshal_secret = λ raw_text. err missing;
}

abbrev docker_auth : Secret
docker_auth = record {
  namespace = "airbyte-abctl";
  name = "docker-auth";
  secret_type = "Opaque";
  data_of = [];
}

created : (secret_create_or_update empty_cluster docker_auth []).0 ≡ ok tt
unfolding secret_create_or_update secret_update_or_create and_then
created = refl

secret_create_or_update-IsWritten_example :
    IsWritten empty_cluster docker_auth (secret_create_or_update empty_cluster docker_auth []).1
secret_create_or_update-IsWritten_example =
    secret_create_or_update-IsWritten empty_cluster docker_auth [] created
