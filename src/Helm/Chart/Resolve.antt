-- ===== src/Helm/Chart/Resolve.antt =====
-- What `ResolveChartReference` returns, branch by branch.
use abctl.Common.{
  String, ◌≡◌, ◌≢◌, refl, ap, ◌∙◌, arith, ◌++◌, eq-ne, append-ne, Bool-cases, inl, inr,
  if◌then◌else◌, Lacks, cut-append, cut_of_Lacks, Result, ok, err, ◌>>=◌, wrap,
}
use abctl.Helm.Semver.{Semver}
use abctl.Helm.Chart.{
  ChartResolver, Lookups, is_url, base_version, chart_url, chart_is_v2_plus,
  resolve_chart_reference,
}

-- The repository for a version.
abbrev pub repo_url_for : Semver → ChartResolver → String → String
repo_url_for sv r version = if chart_is_v2_plus sv version then r.v2_repo_url else r.v1_repo_url

base_version_of_Lacks : (v : String) → Lacks b'-' v → base_version v ≡ v
unfolding base_version
base_version_of_Lacks v h = rw (base_version, cut_of_Lacks b'-' v h) refl

base_version-append :
    (base suffix : String) → Lacks b'-' base → base_version (base ++ ("-" ++ suffix)) ≡ base
unfolding base_version
base_version-append base suffix h = rw (base_version, cut-append "-" base suffix h) refl

fetched :
    (chart before : String) (m : Result String) {result : String × String}
    → (wrap before m >>= λ found. ok (chart, found)) ≡ ok result
    → (result.0 ≡ chart) × (m ≡ ok result.1)
fetched chart before (ok v) h = ground arith
fetched chart before (err e) h = cc

module _ (sv : Semver) (ask : Lookups) (r : ChartResolver) where
  resolve_version :
      (version : String)
      → version ≢ ""
      → resolve_chart_reference sv ask r "" version
        ≡ ok (chart_url (repo_url_for sv r (base_version version)) version, version)
  unfolding resolve_chart_reference
  resolve_version version given =
      rw (eq-ne version "" given) (elim (Bool-cases (chart_is_v2_plus sv (base_version version))) [
        | inl new ↦ rw new refl
        | inr old ↦ rw old refl
      ])

  -- A version alone, plain or with a pre-release suffix, resolves to itself in full, in the
  -- repository that its base version selects; nothing is looked up. The base has no dash.
  pub resolve_version_only :
      (base suffix : String)
      → base ≢ ""
      → Lacks b'-' base
      → (resolve_chart_reference sv ask r "" base
          ≡ ok (chart_url (repo_url_for sv r base) base, base))
        × (resolve_chart_reference sv ask r "" (base ++ ("-" ++ suffix))
            ≡ ok (
              chart_url (repo_url_for sv r base) (base ++ ("-" ++ suffix)),
              base ++ ("-" ++ suffix),
            ))
  resolve_version_only base suffix given h = (
    resolve_version base given
        ∙ ap (λ (v : String). ok (chart_url (repo_url_for sv r v) base, base))
            (base_version_of_Lacks base h),
    resolve_version (base ++ ("-" ++ suffix)) (append-ne base ("-" ++ suffix) given)
        ∙ ap
            (λ (v : String).
              ok (
                chart_url (repo_url_for sv r v) (base ++ ("-" ++ suffix)),
                base ++ ("-" ++ suffix),
              ))
            (base_version-append base suffix h),
  )

  -- If a chart that is named resolves, it resolves to itself, whatever version is given, with the
  -- version of its metadata, fetched by URL or by reference.
  pub resolve_named_chart :
      (chart version : String) {result : String × String}
      → chart ≢ ""
      → resolve_chart_reference sv ask r chart version ≡ ok result
      → (result.0 ≡ chart)
        × ((if is_url (ask.parse_url chart)
              then ask.metadata_for_url chart
              else ask.metadata_for_ref chart)
            ≡ ok result.1)
  unfolding resolve_chart_reference
  resolve_named_chart chart version {result} given e =
      let named = rw (eq-ne chart "" given) at e in
      elim (Bool-cases (is_url (ask.parse_url chart))) [
        | inl web ↦ rw web (fetched chart _ (ask.metadata_for_url chart) (rw web at named))
        | inr local ↦ rw local (fetched chart _ (ask.metadata_for_ref chart) (rw local at named))
      ]
