-- ===== src/Helm/Locate/Latest.antt =====
-- Which entry of the index `GetLatestAirbyteChartUrlFromRepoIndex` chooses.
use mathlib.Core.Path.{subst}
use mathlib.Core.Option.{some-injective}
use mathlib.Core.List
use abctl.Common.{
  String, true, false, Bool-cases, inl, inr, none, some, List, [], ◌∷◌, ◌≡◌, ◌≢◌, refl, ap, ◌++◌,
  arith, ok, All, Option-cases,
}
use abctl.Helm.Semver.{Semver}
use abctl.Helm.Locate.{
  ChartVersion, is_stable, latest_stable, single_url, chosen_chart, latest_of_entries,
}

single_url-eq-ok :
    (repo_url version : String) (urls : List String) {url v : String}
    → single_url repo_url version urls ≡ ok (url, v)
    → (u : String) × (urls ≡ u ∷ []) × (url ≡ repo_url ++ ("/" ++ u)) × (v ≡ version)
unfolding single_url
single_url-eq-ok repo_url version [] h = cc
single_url-eq-ok repo_url version (u ∷ []) h = (u, refl, ground arith, ground arith)
single_url-eq-ok repo_url version (u ∷ w ∷ urls) h = cc

module _ (sv : Semver) where
  -- The first stable entry: all entries before it are pre-releases.
  pub record IsFirstStable (entries : List ChartVersion) (e : ChartVersion) : Type 0 where
    pub before : List ChartVersion
    pub after : List ChartVersion
    pub listed : entries ≡ List.◌++◌ before (e ∷ after)
    pub unstable : All (λ x. is_stable sv x ≡ false) before
    pub stable : is_stable sv e ≡ true

  latest_stable-IsFirstStable :
      (entries : List ChartVersion) {e : ChartVersion}
      → latest_stable sv entries ≡ some e
      → IsFirstStable entries e
  unfolding latest_stable
  latest_stable-IsFirstStable [] h = cc
  latest_stable-IsFirstStable (x ∷ entries) {e} h = elim (Bool-cases (is_stable sv x)) [
    | inl here ↦
        let same : x ≡ e = some-injective x e (rw here at h) in
        record {
          before = [];
          after = entries;
          listed = ap (λ (y : ChartVersion). y ∷ entries) same;
          unstable = tt;
          stable = subst (λ (y : ChartVersion). is_stable sv y ≡ true) same here;
        }
    | inr later ↦
        let r = latest_stable-IsFirstStable entries (rw later at h) in
        record {
          before = x ∷ r.before;
          after = r.after;
          listed = ap (λ (l : List ChartVersion). x ∷ l) r.listed;
          unstable = (later, r.unstable);
          stable = r.stable;
        }
  ]

  -- If the function succeeds, then the index has a first stable entry, which has one URL, and the
  -- result is this URL below the repository's and the entry's version.
  pub latest_of_entries-first :
      (repo_url : String) (entries : List ChartVersion) {url version : String}
      → latest_of_entries sv repo_url (some entries) ≡ ok (url, version)
      → (e : ChartVersion) × (u : String) × IsFirstStable entries e
        × (e.urls ≡ u ∷ [])
        × (url ≡ repo_url ++ ("/" ++ u))
        × (version ≡ e.version)
  unfolding latest_of_entries
  latest_of_entries-first repo_url [] h = cc
  latest_of_entries-first repo_url (x ∷ entries) {url} {version} h =
      elim (Option-cases (latest_stable sv (x ∷ entries))) [
        | inl nothing ↦ let bad = rw (nothing, chosen_chart) at h in cc
        | inr (e, found) ↦
            let (u, one, where_to, which) =
              single_url-eq-ok repo_url e.version e.urls (rw (found, chosen_chart) at h) in
            (e, u, latest_stable-IsFirstStable (x ∷ entries) found, one, where_to, which)
      ]

  latest_stable_of_unstable :
      (entries : List ChartVersion)
      → All (λ x. is_stable sv x ≡ false) entries
      → latest_stable sv entries ≡ none
  unfolding latest_stable
  latest_stable_of_unstable [] h = refl
  latest_stable_of_unstable (x ∷ entries) (p, h) = rw p (latest_stable_of_unstable entries h)

  -- An index in which every entry is a pre-release yields an error.
  pub latest_of_entries_unstable :
      (repo_url : String) (entries : List ChartVersion) (result : String × String)
      → All (λ x. is_stable sv x ≡ false) entries
      → latest_of_entries sv repo_url (some entries) ≢ ok result
  unfolding latest_of_entries
  latest_of_entries_unstable repo_url [] result h e = cc
  latest_of_entries_unstable repo_url (x ∷ entries) result h e =
      let bad = rw (latest_stable_of_unstable (x ∷ entries) h, chosen_chart) at e in cc
