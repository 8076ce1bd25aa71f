-- ===== src/K8s/Ingress/Rules.antt =====
-- Which hosts get a rule.
use abctl.Common.{
  String, Bool, ◌||◌, List, [], ◌∷◌, map, ◌≡◌, refl, ap, ◌∙◌, arith, contains, contains-append,
  ◌==◌, eq_iff,
}
use abctl.Helm.Semver.{Semver}
use abctl.K8s.Ingress.{with_host, ingress_hosts, ingress, ingress_rules}

contains-with_host :
    (host x : String) (hosts : List String)
    → contains (with_host host hosts) x ≡ (contains hosts x || host == x)
unfolding with_host
contains-with_host host x hosts =
    ground (arith, eq_iff host x, contains-append hosts (host ∷ []) x, same_host host x)
  where
    same_host : (a b : String) → a ≡ b → contains hosts a ≡ contains hosts b
    same_host a b e = ap (contains hosts) e

hosts_of_rules :
    (sv : Semver) (v : String) (hosts : List String)
    → map (λ r. r.host) (map (ingress_rules sv v) hosts) ≡ hosts
unfolding ingress_rules
hosts_of_rules sv v [] = refl
hosts_of_rules sv v (h ∷ hosts) = ap (λ (l : List String). h ∷ l) (hosts_of_rules sv v hosts)

contains-ingress_hosts :
    (h x : String) (hosts : List String)
    → contains (ingress_hosts (h ∷ hosts)) x
      ≡ ((contains (h ∷ hosts) x || "localhost" == x) || "host.docker.internal" == x)
unfolding ingress_hosts
contains-ingress_hosts h x hosts =
    contains-with_host "host.docker.internal" x (with_host "localhost" (h ∷ hosts))
    ∙ ap (λ (b : Bool). b || "host.docker.internal" == x)
        (contains-with_host "localhost" x (h ∷ hosts))

-- If hosts are given, a host has a rule of the ingress exactly if it is one of them, "localhost" or
-- "host.docker.internal". If none is, there is one rule, for every host.
pub ingress_hosts_iff :
    (sv : Semver) (chart_version h x : String) (hosts : List String)
    → (contains (map (λ r. r.host) (ingress sv chart_version (h ∷ hosts)).rules) x
        ≡ ((contains (h ∷ hosts) x || "localhost" == x) || "host.docker.internal" == x))
      × (map (λ r. r.host) (ingress sv chart_version []).rules ≡ "" ∷ [])
unfolding ingress
ingress_hosts_iff sv chart_version h x hosts = (
  ap (λ (l : List String). contains l x)
        (hosts_of_rules sv chart_version (ingress_hosts (h ∷ hosts)))
      ∙ contains-ingress_hosts h x hosts,
  hosts_of_rules sv chart_version (ingress_hosts []) ∙ (unfold ingress_hosts in refl),
)
