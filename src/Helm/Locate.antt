-- ===== src/Helm/Locate.antt =====
-- internal/helm/locate.go: the latest stable chart of a repository's index. The repository (its
-- creation, the download of its index and the loading of that file) is a parameter.
pub mod Latest
use abctl.Common.{
  pos, show_int, length, String, Bool, Option, none, some, List, [], ◌∷◌, ◌==◌, if◌then◌else◌, ◌++◌,
  Error, new, Result, ok, err, ◌>>=◌, wrap,
}
use abctl.Common.Dict.{lookup}
use abctl.Helm.Semver.{Semver}
use abctl.Helm.Chart.{with_v}

pub record ChartVersion : Type 0 where
  pub version : String
  pub urls : List String

-- repo.NewChartRepository, DownloadIndexFile of it, and repo.LoadIndexFile.
pub record RepoAccess : Type 1 where
  pub ChartRepo : Type 0
  pub new_chart_repo : String → String → Result ChartRepo
  pub download_index_file : ChartRepo → Result String
  pub load_index_file : String → Result (List (String × List ChartVersion))

-- The URL and the version of the chosen entry, which must have one URL.
unfoldable pub single_url : String → String → List String → Result (String × String)
single_url repo_url version (url ∷ []) = ok (repo_url ++ ("/" ++ url), version)
single_url repo_url version urls =
    err (new ("unexpected number of URLs - " ++ show_int (pos (length urls))))

module _ (sv : Semver) where
  unfoldable pub is_stable : ChartVersion → Bool
  is_stable entry = sv.prerelease (with_v entry.version) == ""

  -- The loop over the entries, which stops at the first stable one.
  unfoldable pub latest_stable : List ChartVersion → Option ChartVersion
  unfolding is_stable
  latest_stable [] = none
  latest_stable (entry ∷ entries) =
      let later = latest_stable entries in if is_stable entry then some entry else later

  unfoldable pub chosen_chart : String → Option ChartVersion → Result (String × String)
  unfolding single_url
  chosen_chart repo_url none = err (new "no valid version of airbyte chart found in repo index")
  chosen_chart repo_url (some latest) = single_url repo_url latest.version latest.urls

  -- From the entries of "airbyte" in the index.
  unfoldable pub latest_of_entries : String → Option (List ChartVersion) → Result (String × String)
  unfolding latest_stable chosen_chart
  latest_of_entries repo_url none = err (new "no entry for airbyte in repo index")
  latest_of_entries repo_url (some []) = err (new "no chart version found")
  latest_of_entries repo_url (some (e ∷ entries)) =
      chosen_chart repo_url (latest_stable (e ∷ entries))

  module _ (access : RepoAccess) where
    -- GetLatestAirbyteChartUrlFromRepoIndex
    unfoldable pub latest_airbyte_chart_url : String → String → Result (String × String)
    unfolding latest_of_entries lookup
    latest_airbyte_chart_url repo_name repo_url = do
      chart_repository ←
          wrap "unable to access repo index: " (access.new_chart_repo repo_name repo_url)
      idx_path ←
          wrap "unable to download index file: " (access.download_index_file chart_repository)
      idx ←
          wrap ("unable to load index file (" ++ (idx_path ++ "): "))
            (access.load_index_file idx_path)
      latest_of_entries repo_url (lookup "airbyte" idx)
