-- ===== src/Helm/Chart.antt =====
-- internal/helm/chart.go: version tests, and the resolution of a chart reference; and
-- internal/validate/url.go. net/url, the download of chart metadata and the index of the chart
-- repository are parameters.
pub mod Versions
pub mod Resolve
use Prim.Native.Nat.{Ordering}
use abctl.Common.{
  String, Bool, true, false, not, ◌&&◌, ◌||◌, Option, none, some, ◌==◌, if◌then◌else◌, ◌++◌,
  has_prefix, cut, Result, ok, err, ◌>>=◌, wrap,
}
use abctl.Helm.Semver.{Semver}

-- A version with the "v" that the semver library wants.
abbrev pub with_v : String → String
with_v v = if has_prefix v "v" then v else "v" ++ v

-- semver.Compare(v, w) >= 0
abbrev pub is_ge : Ordering → Bool
is_ge Ordering.lt = false
is_ge Ordering.eq = true
is_ge Ordering.gt = true

module _ (sv : Semver) where
  -- ChartEqualsOrHigherVersion
  unfoldable pub chart_equals_or_higher_version : String → String → Bool
  chart_equals_or_higher_version v threshold =
      if v == "" then false else is_ge (sv.compare (with_v v) threshold)

  -- ChartIsV2Plus
  unfoldable pub chart_is_v2_plus : String → Bool
  unfolding chart_equals_or_higher_version
  chart_is_v2_plus v = chart_equals_or_higher_version v "v2.0.0"

  -- ChartIsV1Dot8Plus
  unfoldable pub chart_is_v1_dot8_plus : String → Bool
  unfolding chart_equals_or_higher_version
  chart_is_v1_dot8_plus v = chart_equals_or_higher_version v "v1.8.0"

-- The scheme and the host of a URL that net/url parses.
pub record Url : Type 0 where
  pub scheme : String
  pub host : String

-- IsURL, from the result of url.Parse.
unfoldable pub is_url : Result Url → Bool
is_url (err e) = false
is_url (ok u) = (u.scheme == "http" || u.scheme == "https") && not (u.host == "")

pub record ChartResolver : Type 0 where
  pub v1_repo_url : String
  pub v2_repo_url : String

-- What the resolver asks of others: url.Parse, GetMetadataForURL, GetMetadataForRef (the version
-- of the chart's metadata) and GetLatestAirbyteChartUrlFromRepoIndex.
pub record Lookups : Type 0 where
  pub parse_url : String → Result Url
  pub metadata_for_url : String → Result String
  pub metadata_for_ref : String → Result String
  pub latest_chart : String → String → Result (String × String)

-- baseVersion, _, _ := strings.Cut(version, "-")
unfoldable pub base_version : String → String
base_version version = elim (cut b'-' version) [ none ↦ version | some (base, rest) ↦ base ]

-- fmt.Sprintf("%s/airbyte-%s.tgz", url, version)
abbrev pub chart_url : String → String → String
chart_url url version = url ++ ("/airbyte-" ++ (version ++ ".tgz"))

module _ (sv : Semver) (ask : Lookups) where
  -- ResolveChartReference
  unfoldable pub resolve_chart_reference :
      ChartResolver → String → String → Result (String × String)
  unfolding chart_is_v2_plus base_version is_url
  resolve_chart_reference r chart version =
      if chart == ""
      then (if version == ""
          then ask.latest_chart "" r.v2_repo_url
          else if chart_is_v2_plus sv (base_version version)
          then ok (chart_url r.v2_repo_url version, version)
          else ok (chart_url r.v1_repo_url version, version))
      else if is_url (ask.parse_url chart)
      then (do
        found ←
            wrap ("failed to get helm chart metadata for url " ++ (chart ++ ": "))
              (ask.metadata_for_url chart)
        ok (chart, found))
      else (do
        found ←
            wrap ("failed to get helm chart metadata for reference " ++ (chart ++ ": "))
              (ask.metadata_for_ref chart)
        ok (chart, found))
