-- ===== src/Update.antt =====
-- internal/update/update.go: is there a newer release? The HTTP client, the JSON decoder and the
-- semver library are parameters.
pub mod Newer
use Prim.Native.Nat.{Ordering}
use abctl.Common.{
  String, ℕ, Bool, ◌==◌, if◌then◌else◌, ◌++◌, eqb, Error, new, pos, show_int, Result, ok, err,
  ◌>>=◌, wrap,
}
use abctl.Helm.Semver.{Semver}

-- A response: its status code, and its body decoded to the field tag_name.
pub record Response : Type 0 where
  pub status_code : ℕ
  pub tag_name : Result String

-- http.NewRequestWithContext to the address of the latest release, and `doer.Do` of it.
pub record Doer : Type 1 where
  pub Request : Type 0
  pub new_request : String → Result Request
  pub do_request : Request → Result Response

abbrev pub url : String
url = "https://api.github.com/repos/airbytehq/abctl/releases/latest"

abbrev pub err_dev_version : Error
err_dev_version = new "dev version not supported"

module _ (sv : Semver) where
  -- if !semver.IsValid(latest.TagName) { … }
  unfoldable pub valid_tag : String → Result String
  valid_tag tag = if sv.is_valid tag then ok tag else err (new ("invalid semver tag: " ++ tag))

  -- The end of `latest`, from the response on.
  unfoldable pub tag_of_response : Response → Result String
  unfolding valid_tag
  tag_of_response res =
      if eqb res.status_code 200
      then wrap "unable to decode response: " res.tag_name >>= valid_tag
      else err (new ("unable to do request, status code: " ++ show_int (pos res.status_code)))

module _ (sv : Semver) (doer : Doer) where
  -- latest
  unfoldable pub latest : Result String
  latest = do
    req ← wrap "unable to create request: " (doer.new_request url)
    res ← wrap "unable to do request: " (doer.do_request req)
    tag_of_response sv res

  -- semver.Compare(version, latest) < 0
  abbrev pub is_older : String → String → Bool
  is_older version tag = elim (sv.compare version tag) [ Ordering.lt ↦ Bool.true | _ ↦ Bool.false ]

  -- check. The empty text says that the version is the latest.
  unfoldable pub check : String → Result String
  check version =
      if version == "dev"
      then err err_dev_version
      else latest >>= λ tag. if is_older version tag then ok tag else ok ""
