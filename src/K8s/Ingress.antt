-- ===== src/K8s/Ingress.antt =====
-- internal/k8s/ingress.go: the rules that route hosts to the services of the Airbyte release.
pub mod Rules
use mathlib.Core.List
use abctl.Common.{String, Bool, List, [], ◌∷◌, map, if◌then◌else◌, ◌++◌, contains}
use abctl.Helm.Semver.{Semver}
use abctl.Helm.Chart.{chart_is_v1_dot8_plus}

-- HTTPIngressPath, with the service backend that is its only one.
pub record HttpIngressPath : Type 0 where
  pub path : String
  pub path_type : String
  pub service_name : String
  pub port_name : String

pub record IngressRule : Type 0 where
  pub host : String
  pub paths : List HttpIngressPath

pub record Ingress : Type 0 where
  pub name : String
  pub namespace : String
  pub ingress_class_name : String
  pub rules : List IngressRule

abbrev pub airbyte_chart_release : String
airbyte_chart_release = "airbyte-abctl"

abbrev prefix_path : String → String → HttpIngressPath
prefix_path path service = record {
  path = path;
  path_type = "Prefix";
  service_name = airbyte_chart_release ++ service;
  port_name = "http";
}

-- ingressRulesForV1
unfoldable pub ingress_rules_for_v1 : List HttpIngressPath
ingress_rules_for_v1 =
    prefix_path "/api/v1/connector_builder" "-airbyte-connector-builder-server-svc"
    ∷ prefix_path "/" "-airbyte-webapp-svc"
    ∷ []

-- ingressRulesForV1Dot8Plus
unfoldable pub ingress_rules_for_v1_dot8_plus : List HttpIngressPath
ingress_rules_for_v1_dot8_plus =
    prefix_path "/api/v1/connector_builder" "-airbyte-connector-builder-server-svc"
    ∷ prefix_path "/" "-airbyte-server-svc"
    ∷ []

-- `if !slices.Contains(hosts, host) { hosts = append(hosts, host) }`
unfoldable pub with_host : String → List String → List String
with_host host hosts = if contains hosts host then hosts else List.◌++◌ hosts (host ∷ [])

-- The hosts that get a rule.
unfoldable pub ingress_hosts : List String → List String
ingress_hosts [] = "" ∷ []
ingress_hosts (h ∷ hosts) = with_host "host.docker.internal" (with_host "localhost" (h ∷ hosts))

module _ (sv : Semver) where
  -- ingressRules
  unfoldable pub ingress_rules : String → String → IngressRule
  unfolding ingress_rules_for_v1 ingress_rules_for_v1_dot8_plus
  ingress_rules chart_version host = record {
    host = host;
    paths =
        if chart_is_v1_dot8_plus sv chart_version
        then ingress_rules_for_v1_dot8_plus
        else ingress_rules_for_v1;
  }

  -- Ingress
  unfoldable pub ingress : String → List String → Ingress
  unfolding ingress_rules
  ingress chart_version hosts = record {
    name = "ingress-abctl";
    namespace = "airbyte-abctl";
    ingress_class_name = "nginx";
    rules = map (ingress_rules chart_version) (ingress_hosts hosts);
  }
